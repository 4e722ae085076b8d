-- ===== src/Tests/Stub.antt =====
-- internal/fs/fs_stub.go: a file is staged twice.
use fuse_stream_mvp.Base.{[], ◌∷◌}
use fuse_stream_mvp.Base.Maps.{Text, text_eq}
use fuse_stream_mvp.Fs.Stage.{Request}
use fuse_stream_mvp.Fs.Stub.{StubFs, new_stub, stage_stub}

abbrev a_request : Request
a_request = record {
  file_id = b'f' ∷ [];
  file_name = b'n' ∷ [];
  recipient_tag = b'r' ∷ [];
  size = 5;
  content_type = [];
}

abbrev staged_twice : StubFs
staged_twice = (stage_stub a_request 2 (stage_stub a_request 1 new_stub).0).0

-- "f_r"
abbrev an_id : Text
an_id = b'f' ∷ b'_' ∷ b'r' ∷ []
