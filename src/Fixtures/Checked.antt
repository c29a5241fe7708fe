-- ===== src/Fixtures/Checked.antt =====
-- The canonical check takes every CBOR file that the generator writes.
use aafp_go.Base.{
  ℕ, suc, ◌≡◌, refl, ap, ◌∙◌, Bytes, List, [], ◌∷◌, ◌++◌, All, All-append, length, ok, arith,
}
use aafp_go.Base.Ascii.{ascii}
use aafp_go.Cbor.{Value, text_string, Limits, n_int}
use aafp_go.Cbor.Encode.{encode}
use aafp_go.Cbor.Canonical.{check_canonical, is_valid_utf8}
use aafp_go.Cbor.Decode.RoundTrip.Shape.{Fits}
use aafp_go.Cbor.Decode.RoundTrip.Parts.{Room}
use aafp_go.Cbor.Canonical.Written.Clean.{IsClean}
use aafp_go.Cbor.Canonical.Written.Values.{check_canonical-encode}
use aafp_go.Messages.{
  client_hello_to_cbor_without_sig_and_mac, server_hello_to_cbor_without_sig,
  client_finished_to_cbor_without_sig,
}
use mathlib.Core.List.{Permᴰ}
use aafp_go.Cbor.Encode.Unordered.{All-perm}
use aafp_go.Identity.{Order, to_cbor_without_sig, to_cbor, entries_without_sig, capability_to_cbor}
use aafp_go.Identity.Metadata.{VisitsOnce}
use aafp_go.Fixtures.{Values, cbor_fixtures, rpc_fixtures}
use aafp_go.Fixtures.Peers.{
  handshake_fixtures, record_fixtures, hello, answer, finished, record_a, record_b, record_with_sig,
}

-- A value with an encoding that the canonical check lets through.
abbrev Checked : Bytes × Value → Type 0
Checked p = Fits p.1 × IsClean p.1

cbor_fixtures-Checked : All Checked cbor_fixtures
unfolding cbor_fixtures n_int is_valid_utf8
cbor_fixtures-Checked = ground arith

rpc_fixtures-Checked : All Checked rpc_fixtures
unfolding rpc_fixtures is_valid_utf8
rpc_fixtures-Checked = ground arith

handshake_fixtures-Checked : (sha256 : Bytes → Bytes) → All Checked (handshake_fixtures sha256)
unfolding handshake_fixtures hello answer finished client_hello_to_cbor_without_sig_and_mac
    server_hello_to_cbor_without_sig client_finished_to_cbor_without_sig
handshake_fixtures-Checked sha256 = ground arith

perm-length {ℓ} : {A : Type ℓ} {xs ys : List A} → Permᴰ xs ys → length xs ≡ length ys
perm-length Permᴰ.nil = refl
perm-length (Permᴰ.cons e p) = ap suc (perm-length p)
perm-length (Permᴰ.swap e f) = refl
perm-length (Permᴰ.trans p r) = perm-length p ∙ perm-length r

perm_nil {ℓ} : {A : Type ℓ} (xs : List A) → Permᴰ xs [] → xs ≡ []
perm_nil [] p = refl
perm_nil (x ∷ xs) p = absurd (omega (arith, perm-length p))

perm_single {ℓ} : {A : Type ℓ} (xs : List A) (x : A) → Permᴰ xs (x ∷ []) → xs ≡ x ∷ []
perm_single [] x p = absurd (omega (arith, perm-length p))
perm_single (y ∷ []) x p = ap (λ e. e ∷ []) (All-perm (λ e. e ≡ x) p (refl, tt)).0
perm_single (y ∷ z ∷ xs) x p = absurd (omega (arith, perm-length p))

-- The record's metadata has one entry at most, so its order does not matter.
record_fixtures-Checked :
    (sha256 : Bytes → Bytes) (orders : ℕ → Order)
    → ((i : ℕ) → VisitsOnce (orders i))
    → All Checked (record_fixtures sha256 orders)
unfolding record_fixtures record_a record_b record_with_sig is_valid_utf8 to_cbor_without_sig
    to_cbor entries_without_sig capability_to_cbor
record_fixtures-Checked sha256 orders once =
    rw
      (
        perm_single _ _ (once 0 ((ascii "model", text_string (ascii "test-model")) ∷ [])),
        perm_nil _ (once 0 []),
      )
      (ground arith)

-- Everything that `writeCbor` is given.
abbrev pub all_values : (Bytes → Bytes) → (ℕ → Order) → Values
all_values sha256 orders =
    cbor_fixtures ++ (handshake_fixtures sha256 ++ (record_fixtures sha256 orders ++ rpc_fixtures))

all_values-Checked :
    (sha256 : Bytes → Bytes) (orders : ℕ → Order)
    → ((i : ℕ) → VisitsOnce (orders i))
    → All Checked (all_values sha256 orders)
all_values-Checked sha256 orders once = All-append Checked cbor_fixtures _ cbor_fixtures-Checked (
    All-append Checked (handshake_fixtures sha256) _ (handshake_fixtures-Checked sha256) (
      All-append Checked (record_fixtures sha256 orders) _
        (record_fixtures-Checked sha256 orders once) rpc_fixtures-Checked))

-- The canonical check accepts the file.
abbrev pub Accepted : Limits → Bytes × Value → Type 0
Accepted limits p = check_canonical limits (encode p.1) ≡ ok tt

abbrev pub HasRoom : Limits → Bytes × Value → Type 0
HasRoom limits p = Room limits (length (encode p.1))

accept_list :
    (limits : Limits) (vs : Values)
    → All Checked vs
    → All (HasRoom limits) vs
    → All (Accepted limits) vs
accept_list limits [] h r = tt
accept_list limits ((name, v) ∷ vs) ((f, c), h) (q, r) =
    (check_canonical-encode limits v f c q, accept_list limits vs h r)

-- `CheckCanonical` accepts every CBOR file that the generator writes: the plain values, the handshake
-- messages, the agent records and the RPC messages, whatever SHA-256 gives for the two public keys
-- and in whatever order a record's metadata is visited, each entry once. No file is longer than an
-- int and than the slices that `make` can allocate.
pub fixtures-canonical :
    (limits : Limits) (sha256 : Bytes → Bytes) (orders : ℕ → Order)
    → ((i : ℕ) → VisitsOnce (orders i))
    → All (HasRoom limits) (all_values sha256 orders)
    → All (Accepted limits) (all_values sha256 orders)
fixtures-canonical limits sha256 orders once room =
    accept_list limits (all_values sha256 orders) (all_values-Checked sha256 orders once) room
