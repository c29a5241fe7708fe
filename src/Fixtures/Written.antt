-- ===== src/Fixtures/Written.antt =====
-- What `main` of the generator has written at its end.
use aafp_go.Base.{
  ℕ, ◌≡◌, refl, sym, ap, ◌∙◌, true, Bytes, List, [], ◌∷◌, ◌++◌, append_assoc, append-nil, All,
  length, Option, ok, err, panic, arith,
}
use aafp_go.Base.Ascii.{ascii}
use aafp_go.Cbor.Encode.{encode}
use aafp_go.Identity.{Order}
use aafp_go.Frame as Frame
use aafp_go.Frame.{IsSendable}
use aafp_go.Frame.RoundTrip.{decode-encode}
use aafp_go.Fixtures.{Values, cbor_fixtures, frame_fixtures, rpc_fixtures, manifest}
use aafp_go.Fixtures.Peers.{handshake_fixtures, record_fixtures, transcript_fixtures}
use aafp_go.Fixtures.Generate.{
  Os, Disk, Outcome, write_fixture, write_cbor, write_frame, each, output_dir, main,
}

-- The bytes that `frame.Encode` gives, where it gives no error.
abbrev pub frame_bytes : Frame.Frame → Bytes
frame_bytes f = elim (Frame.encode f) [ ok bs ↦ bs | err e ↦ [] | panic ↦ [] ]

abbrev FrameReads : Bytes × Frame.Frame → Type 0
FrameReads p =
    (Frame.encode p.1 ≡ ok (frame_bytes p.1))
    × (Frame.decode (frame_bytes p.1) ≡ ok (p.1, length (frame_bytes p.1)))

sendable-FrameReads : (name : Bytes) (f : Frame.Frame) → IsSendable f → FrameReads (name, f)
sendable-FrameReads name f s =
    let (bs, written, _, read) = decode-encode f [] s in
    let bytes : frame_bytes f ≡ bs = ground (arith, written) in
    (written ∙ ap ok (sym bytes), rw bytes (ap Frame.decode (sym (append-nil bs)) ∙ read))

frames-FrameReads :
    (xs : List (Bytes × Frame.Frame)) → All (λ p. IsSendable p.1) xs → All FrameReads xs
frames-FrameReads [] h = tt
frames-FrameReads ((name, f) ∷ xs) (s, h) = (sendable-FrameReads name f s, frames-FrameReads xs h)

frame_fixtures-FrameReads : All FrameReads frame_fixtures
frame_fixtures-FrameReads =
    frames-FrameReads frame_fixtures
      (unfold frame_fixtures Frame.is_critical_unknown_frame_type in ground arith)

-- The files of a directory, by what is written for an item.
abbrev pub placed {ℓ} :
    {A : Type ℓ} → (Bytes → Bytes → Bytes) → Bytes → (A → Bytes) → List (Bytes × A) → Disk
placed join dir content [] = []
placed join dir content ((name, a) ∷ rest) =
    (join dir name, content a) ∷ placed join dir content rest

everywhere {ℓ κ} : {A : Type ℓ} (P : A → Type κ) → ((x : A) → P x) → (xs : List A) → All P xs
everywhere P h [] = tt
everywhere P h (x ∷ xs) = (h x, everywhere P h xs)

module _ (os : Os) where
  -- The item is written behind the files that are there.
  abbrev Appends {ℓ} :
      {A : Type ℓ} → (Bytes → Bytes → A → Disk → Outcome) → Bytes → (A → Bytes) → Bytes × A → Type 0
  Appends write dir content p =
      (disk : Disk) → write dir p.0 p.1 disk ≡ ok (disk ++ ((os.join dir p.0, content p.1) ∷ []))

  each_writes {ℓ} :
      {A : Type ℓ} (write : Bytes → Bytes → A → Disk → Outcome) (dir : Bytes) (content : A → Bytes)
      (xs : List (Bytes × A)) (disk : Disk)
      → All (Appends write dir content) xs
      → each os write dir xs disk ≡ ok (disk ++ placed os.join dir content xs)
  unfolding each
  each_writes write dir content [] disk h = ap ok (sym (append-nil disk))
  each_writes write dir content ((name, a) ∷ rest) disk (q, h) = rw (q disk) (
      each_writes write dir content rest (disk ++ ((os.join dir name, content a) ∷ [])) h
      ∙ ap ok (
          append_assoc disk ((os.join dir name, content a) ∷ []) (placed os.join dir content rest)))

  module _ (sha256 : Bytes → Bytes) (hmac : Bytes → Bytes → Bytes) (orders : ℕ → Order) where
    -- The files in the order of `main`.
    abbrev pub all_files : Bytes → Disk
    all_files out =
        (((((placed os.join (os.join out (ascii "cbor")) encode cbor_fixtures
                  ++ placed os.join (os.join out (ascii "frames")) frame_bytes frame_fixtures)
                ++ placed os.join (os.join out (ascii "handshake")) encode
                    (handshake_fixtures sha256))
              ++ placed os.join (os.join out (ascii "agent_record")) encode
                  (record_fixtures sha256 orders))
            ++ placed os.join (os.join out (ascii "rpc")) encode rpc_fixtures)
          ++ placed os.join (os.join out (ascii "transcript")) (λ b. b)
              (transcript_fixtures sha256 hmac))
        ++ ((os.join out (ascii "manifest.json"), manifest) ∷ [])

  -- Whatever is asked of the operating system, it does.
  pub record Obliging : Type 0 where
    pub makes : (dir : Bytes) → os.mkdir_all dir ≡ true
    pub writes : (path content : Bytes) → os.write_file path content ≡ true

  module _ (good : Obliging) where
    fixture_written :
        (dir name content : Bytes) (disk : Disk)
        → write_fixture os dir name content disk ≡ ok (disk ++ ((os.join dir name, content) ∷ []))
    unfolding write_fixture
    fixture_written dir name content disk =
        rw (good.makes dir, good.writes (os.join dir name) content) refl

    fixtures_written :
        (dir : Bytes) (xs : List (Bytes × Bytes)) (disk : Disk)
        → each os (write_fixture os) dir xs disk ≡ ok (disk ++ placed os.join dir (λ b. b) xs)
    fixtures_written dir xs disk =
        each_writes (write_fixture os) dir (λ b. b) xs disk
          (everywhere (Appends (write_fixture os) dir (λ b. b)) (λ p. fixture_written dir p.0 p.1)
            xs)

    values_written :
        (dir : Bytes) (xs : Values) (disk : Disk)
        → each os (write_cbor os) dir xs disk ≡ ok (disk ++ placed os.join dir encode xs)
    unfolding write_cbor
    values_written dir xs disk = each_writes (write_cbor os) dir encode xs disk (
        everywhere (Appends (write_cbor os) dir encode) (λ p. fixture_written dir p.0 (encode p.1))
          xs)

    frame_Appends :
        (dir : Bytes) (xs : List (Bytes × Frame.Frame))
        → All FrameReads xs
        → All (Appends (write_frame os) dir frame_bytes) xs
    unfolding write_frame
    frame_Appends dir [] h = tt
    frame_Appends dir ((name, f) ∷ xs) ((e, _), h) =
        ((λ d. rw e (fixture_written dir name (frame_bytes f) d)), frame_Appends dir xs h)

    frames_written :
        (dir : Bytes) (xs : List (Bytes × Frame.Frame)) (disk : Disk)
        → All FrameReads xs
        → each os (write_frame os) dir xs disk ≡ ok (disk ++ placed os.join dir frame_bytes xs)
    frames_written dir xs disk reads =
        each_writes (write_frame os) dir frame_bytes xs disk (frame_Appends dir xs reads)

    module _ (sha256 : Bytes → Bytes) (hmac : Bytes → Bytes → Bytes) (orders : ℕ → Order) where
      -- All fixtures are written, in the order of `main`.
      pub main_writes :
          (arg : Option Bytes)
          → main os sha256 hmac orders arg ≡ ok (all_files sha256 hmac orders (output_dir arg))
      unfolding main
      main_writes arg =
          let out = output_dir arg in
          rw (values_written (os.join out (ascii "cbor")) cbor_fixtures []) (
            rw
              (frames_written (os.join out (ascii "frames")) frame_fixtures
                (placed os.join (os.join out (ascii "cbor")) encode cbor_fixtures)
                frame_fixtures-FrameReads)
              (rw (values_written (os.join out (ascii "handshake")) (handshake_fixtures sha256) _) (
                rw
                  (values_written (os.join out (ascii "agent_record"))
                    (record_fixtures sha256 orders) _)
                  (rw (values_written (os.join out (ascii "rpc")) rpc_fixtures _) (
                    rw
                      (fixtures_written (os.join out (ascii "transcript"))
                        (transcript_fixtures sha256 hmac) _)
                      (fixture_written out (ascii "manifest.json") manifest _))))))
