-- ===== src/Fixtures/Agreeing.antt =====
-- How the files that `main` of the generator writes fit together.
use aafp_go.Base.{ℕ, ◌≡◌, ◌⊎◌, inl, inr, refl, Bytes, [], ◌∷◌, ◌++◌, Option, ok}
use aafp_go.Base.Ascii.{ascii}
use aafp_go.Cbor.Encode.{encode}
use aafp_go.Identity.{Order}
use aafp_go.Messages.Keys.{compute_session_id}
use aafp_go.Fixtures.{tls_binding, cbor_fixtures, frame_fixtures, rpc_fixtures, manifest}
use aafp_go.Fixtures.Peers.{
  hello, answer, hello_value, answer_value, finished_value, handshake_fixtures, record_fixtures,
  transcript_fixtures,
}
use aafp_go.Fixtures.Generate.{Os, Disk, output_dir, main}
use aafp_go.Fixtures.Written.{frame_bytes, placed, all_files, Obliging, main_writes}

module _ (os : Os) where
  -- A file of the directory was written with the content.
  abbrev pub HasFile : Bytes → Bytes → Bytes → Bytes → Disk → Type 0
  HasFile out dir name content [] = ⊥
  HasFile out dir name content (file ∷ disk) =
      (file ≡ (os.join (os.join out dir) name, content)) ⊎ HasFile out dir name content disk

  -- The transcript's files against those of the messages.
  pub record Agreeing (sha256 : Bytes → Bytes) (hmac : Bytes → Bytes → Bytes) (out : Bytes)
      (disk : Disk) : Type 0 where
    pub client_hello : Bytes
    pub server_hello : Bytes
    pub client_finished : Bytes
    pub after_client_hello : Bytes
    pub after_server_hello : Bytes
    pub hello_written :
        HasFile out (ascii "handshake") (ascii "client_hello_without_sig.bin") client_hello disk
    pub answer_written :
        HasFile out (ascii "handshake") (ascii "server_hello_without_sig.bin") server_hello disk
    pub finished_written :
        HasFile out
          (ascii "handshake")
          (ascii "client_finished_without_sig.bin")
          client_finished
          disk
    pub first_hash :
        HasFile out (ascii "transcript") (ascii "hash_init.bin") (sha256 tls_binding) disk
    pub hello_hashed : after_client_hello ≡ sha256 (sha256 tls_binding ++ client_hello)
    pub hello_hash :
        HasFile out
          (ascii "transcript")
          (ascii "hash_after_clienthello.bin")
          after_client_hello
          disk
    pub answer_hashed : after_server_hello ≡ sha256 (after_client_hello ++ server_hello)
    pub answer_hash :
        HasFile out
          (ascii "transcript")
          (ascii "hash_after_serverhello.bin")
          after_server_hello
          disk
    pub last_hash :
        HasFile out
          (ascii "transcript")
          (ascii "hash_after_clientfinished.bin")
          (sha256 (after_server_hello ++ client_finished))
          disk
    pub id_derived :
        HasFile out
          (ascii "transcript")
          (ascii "session_id.bin")
          (compute_session_id hmac after_client_hello
            (hello sha256).nonce
            (answer sha256).nonce
            (answer sha256).agent_id)
          disk

  file_before :
      (out dir name content : Bytes) (disk more : Disk)
      → HasFile out dir name content disk
      → HasFile out dir name content (disk ++ more)
  file_before out dir name content [] more h = absurd h
  file_before out dir name content (file ∷ disk) more (inl here) = inl here
  file_before out dir name content (file ∷ disk) more (inr there) =
      inr (file_before out dir name content disk more there)

  file_behind :
      (out dir name content : Bytes) (disk more : Disk)
      → HasFile out dir name content more
      → HasFile out dir name content (disk ++ more)
  file_behind out dir name content [] more h = h
  file_behind out dir name content (file ∷ disk) more h =
      inr (file_behind out dir name content disk more h)

  module _ (sha256 : Bytes → Bytes) (hmac : Bytes → Bytes → Bytes) (orders : ℕ → Order)
      (out : Bytes) where
    -- What is written before each directory.
    abbrev to_frames : Disk
    to_frames =
        placed os.join (os.join out (ascii "cbor")) encode cbor_fixtures
        ++ placed os.join (os.join out (ascii "frames")) frame_bytes frame_fixtures

    abbrev messages : Disk
    messages = placed os.join (os.join out (ascii "handshake")) encode (handshake_fixtures sha256)

    abbrev records : Disk
    records =
        placed os.join (os.join out (ascii "agent_record")) encode (record_fixtures sha256 orders)

    abbrev calls : Disk
    calls = placed os.join (os.join out (ascii "rpc")) encode rpc_fixtures

    abbrev hashes : Disk
    hashes =
        placed os.join (os.join out (ascii "transcript")) (λ b. b) (transcript_fixtures sha256 hmac)

    abbrev last : Disk
    last = (os.join out (ascii "manifest.json"), manifest) ∷ []

    in_handshake :
        (name content : Bytes)
        → HasFile out (ascii "handshake") name content messages
        → HasFile out (ascii "handshake") name content (all_files os sha256 hmac orders out)
    in_handshake name content h =
        let dir = ascii "handshake" in
        file_before out dir name content ((((to_frames ++ messages) ++ records) ++ calls) ++ hashes)
          last
          (file_before out dir name content (((to_frames ++ messages) ++ records) ++ calls) hashes (
            file_before out dir name content ((to_frames ++ messages) ++ records) calls (
              file_before out dir name content (to_frames ++ messages) records
                (file_behind out dir name content to_frames messages h))))

    in_transcript :
        (name content : Bytes)
        → HasFile out (ascii "transcript") name content hashes
        → HasFile out (ascii "transcript") name content (all_files os sha256 hmac orders out)
    in_transcript name content h =
        let dir = ascii "transcript" in
        let before = ((to_frames ++ messages) ++ records) ++ calls in
        file_before out dir name content (before ++ hashes) last
          (file_behind out dir name content before hashes h)

    all_files-Agreeing : Agreeing sha256 hmac out (all_files os sha256 hmac orders out)
    unfolding handshake_fixtures transcript_fixtures hello answer
    all_files-Agreeing = record {
      client_hello = encode (hello_value sha256);
      server_hello = encode (answer_value sha256);
      client_finished = encode (finished_value sha256);
      after_client_hello = sha256 (sha256 tls_binding ++ encode (hello_value sha256));
      after_server_hello = sha256 (
          sha256 (sha256 tls_binding ++ encode (hello_value sha256))
          ++ encode (answer_value sha256));
      hello_written = in_handshake _ _ (inl refl);
      answer_written = in_handshake _ _ (inr (inl refl));
      finished_written = in_handshake _ _ (inr (inr (inl refl)));
      first_hash = in_transcript _ _ (inl refl);
      hello_hashed = refl;
      hello_hash = in_transcript _ _ (inr (inl refl));
      answer_hashed = refl;
      answer_hash = in_transcript _ _ (inr (inr (inl refl)));
      last_hash = in_transcript _ _ (inr (inr (inr (inl refl))));
      id_derived = in_transcript _ _ (inr (inr (inr (inr (inl refl)))));
    }

  module _ (good : Obliging os) (sha256 : Bytes → Bytes) (hmac : Bytes → Bytes → Bytes)
      (orders : ℕ → Order) where
    -- Where the operating system makes every directory and writes every file, `main` ends without a
    -- panic, and the files that it has written agree with each other: the first transcript hash is
    -- that of the TLS binding, each further one hashes the one before with the very bytes of the
    -- client's hello, the server's hello and the client's finished message, which are written too,
    -- and the session id is derived from the hash after the client's hello, the nonces in the two
    -- hellos and the server's agent id.
    pub main-Agreeing :
        (arg : Option Bytes)
        → (disk : Disk) × (main os sha256 hmac orders arg ≡ ok disk)
          × Agreeing sha256 hmac (output_dir arg) disk
    main-Agreeing arg = (
      all_files os sha256 hmac orders (output_dir arg),
      main_writes os good sha256 hmac orders arg,
      all_files-Agreeing sha256 hmac orders (output_dir arg),
    )
