-- ===== src/Fixtures/Generate.antt =====
-- `main` of cmd/generate_interop_fixtures/main.go: the order in which the fixtures are written. What
-- `os.MkdirAll` and `os.WriteFile` answer and `filepath.Join` are arguments. The files written so far
-- are a list of paths and contents; what is printed, and the hashes of the files read back, are left
-- out.
use aafp_go.Base.{
  ℕ, Bool, not, if◌then◌else◌, Bytes, List, [], ◌∷◌, ◌++◌, Option, none, some, Result, ok, err,
  panic, ◌>>=◌,
}
use aafp_go.Base.Ascii.{ascii}
use aafp_go.Cbor.{Value}
use aafp_go.Cbor.Encode.{encode}
use aafp_go.Frame as Frame
use aafp_go.Identity.{Order}
use aafp_go.Fixtures.{cbor_fixtures, frame_fixtures, rpc_fixtures, manifest}
use aafp_go.Fixtures.Peers.{handshake_fixtures, record_fixtures, transcript_fixtures}

-- The operating system: whether a directory is made and a file is written.
pub record Os : Type 0 where
  pub mkdir_all : Bytes → Bool
  pub write_file : Bytes → Bytes → Bool
  pub join : Bytes → Bytes → Bytes

-- The files written so far; a failure panics.
abbrev pub Disk : Type 0
Disk = List (Bytes × Bytes)

abbrev pub Outcome : Type 0
Outcome = Result Frame.FrameError Disk

abbrev pub output_dir : Option Bytes → Bytes
output_dir none = ascii "go_interop_fixtures"
output_dir (some dir) = dir

module _ (os : Os) where
  unfoldable pub write_fixture : Bytes → Bytes → Bytes → Disk → Outcome
  write_fixture dir name content disk =
      let path = os.join dir name in
      if not (os.mkdir_all dir)
      then panic
      else if not (os.write_file path content)
      then panic
      else ok (disk ++ ((path, content) ∷ []))

  unfoldable pub write_cbor : Bytes → Bytes → Value → Disk → Outcome
  unfolding write_fixture
  write_cbor dir name v disk = write_fixture dir name (encode v) disk

  abbrev write_encoded : Bytes → Bytes → Result Frame.FrameError Bytes → Disk → Outcome
  write_encoded dir name (ok bs) disk = write_fixture dir name bs disk
  write_encoded dir name (err e) disk = panic
  write_encoded dir name panic disk = panic

  unfoldable pub write_frame : Bytes → Bytes → Frame.Frame → Disk → Outcome
  unfolding write_fixture
  write_frame dir name f disk = write_encoded dir name (Frame.encode f) disk

  -- One call after the other.
  unfoldable pub each {ℓ} :
      {A : Type ℓ} (write : Bytes → Bytes → A → Disk → Outcome)
      → Bytes
      → List (Bytes × A)
      → Disk
      → Outcome
  each write dir [] disk = ok disk
  each write dir ((name, a) ∷ rest) disk =
      write dir name a disk >>= λ disk'. each write dir rest disk'

  module _ (sha256 : Bytes → Bytes) (hmac : Bytes → Bytes → Bytes) (orders : ℕ → Order) where
    -- `main` by its first argument, if there is one.
    unfoldable pub main : Option Bytes → Outcome
    unfolding each write_cbor write_frame write_fixture
    main arg =
        let out = output_dir arg in
        each write_cbor (os.join out (ascii "cbor")) cbor_fixtures [] >>= λ disk.
        each write_frame (os.join out (ascii "frames")) frame_fixtures disk >>= λ disk.
        each write_cbor (os.join out (ascii "handshake")) (handshake_fixtures sha256) disk
        >>= λ disk.
            each write_cbor (os.join out (ascii "agent_record")) (record_fixtures sha256 orders)
              disk
            >>= λ disk. each write_cbor (os.join out (ascii "rpc")) rpc_fixtures disk >>= λ disk.
                each write_fixture (os.join out (ascii "transcript"))
                  (transcript_fixtures sha256 hmac) disk
                >>= λ disk. write_fixture out (ascii "manifest.json") manifest disk
