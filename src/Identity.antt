-- ===== src/Identity.antt =====
-- identity/identity.go: agent records, their CBOR form, and their verification.
-- A map is an association list with distinct keys; where the code ranges over it, the order is an
-- argument. SHA-256 and the signature scheme are arguments.
pub mod Equal
pub mod Verified
pub mod Metadata
pub mod Sent
pub mod Signed
pub mod Wire
mod Runs
use aafp_go.Base.{
  ℕ, suc, ◌+◌, ◌-◌, ◌*◌, Bool, true, false, not, ltb, leb, ◌==◌, ◌||◌, if◌then◌else◌, Bytes,
  bytes_eq, bit_or, List, [], ◌∷◌, ◌++◌, length, Option, none, some, Result, ok, err, panic, ◌>>=◌,
}
use Prim.Native.Nat.{bit_xor}
use aafp_go.Base.Int.{ℤ, pos}
use aafp_go.Cbor.{
  Value, Items, IntEntries, StrEntries, unsigned, byte_string, text_string, array, int_map, str_map,
  null, no_items, item, no_ints, int_entry, no_strs, str_entry, int_map_get, to_str_entries,
}
use aafp_go.Cbor.Encode.{encode}
use aafp_go.Messages.{entry, unsigned_field, bytes_field, items_field}

-- "aafp-record-v1"
abbrev pub record_type_v1 : Bytes
record_type_v1 = 97 ∷ 97 ∷ 102 ∷ 112 ∷ 45 ∷ 114 ∷ 101 ∷ 99 ∷ 111 ∷ 114 ∷ 100 ∷ 45 ∷ 118 ∷ 49 ∷ []

abbrev pub key_alg_mldsa65 : ℕ
key_alg_mldsa65 = 1

abbrev pub max_record_expiry : ℕ
max_record_expiry = 30 * 24 * 60 * 60

pub data IdentityError : Type 0 where
  capability_not_int_map capability_name_invalid metadata_not_string_map : IdentityError
  record_not_int_map missing_record_type missing_agent_id missing_public_key : IdentityError
  invalid_agent_id invalid_record_type unsupported_key_algorithm : IdentityError
  signature_failed expired : IdentityError

-- The loop over `a`, where `b` is as long: `r |= a[i] ^ b[i]`.
abbrev pub differences : Bytes → Bytes → ℕ → ℕ
differences [] b r = r
differences (x ∷ a) [] r = r
differences (x ∷ a) (y ∷ b) r = differences a b (bit_or r (bit_xor x y))

unfoldable pub constant_time_eq : Bytes → Bytes → Bool
constant_time_eq a b = if not (length a == length b) then false else differences a b 0 == 0

pub record CapabilityDescriptor : Type 0 where
  pub name : Bytes
  pub metadata : List (Bytes × Value)

-- The order in which a `range` loop visits the metadata.
abbrev pub Order : Type 0
Order = List (Bytes × Value) → List (Bytes × Value)

unfoldable pub capability_to_cbor : Order → CapabilityDescriptor → Value
capability_to_cbor order c =
    int_map
      (entry 1 (text_string c.name) (entry 2 (str_map (to_str_entries (order c.metadata))) no_ints))

-- `cap.Metadata[e.Key] = e.Value`
abbrev pub set : Bytes → Value → List (Bytes × Value) → List (Bytes × Value)
set key v [] = (key, v) ∷ []
set key v ((k, w) ∷ es) = if bytes_eq k key then (key, v) ∷ es else (k, w) ∷ set key v es

abbrev pub set_all : StrEntries → List (Bytes × Value) → List (Bytes × Value)
set_all no_strs es = es
set_all (str_entry k v rest) es = set_all rest (set k v es)

-- The value under key 2, if there is one.
abbrev pub metadata_from_cbor : Option Value → Result IdentityError (List (Bytes × Value))
metadata_from_cbor none = ok []
metadata_from_cbor (some (str_map es)) = ok (set_all es [])
metadata_from_cbor (some (int_map no_ints)) = ok []
metadata_from_cbor (some null) = ok []
metadata_from_cbor _ = err metadata_not_string_map

-- A text string, or the error given.
abbrev pub text_or : IdentityError → Option Value → Result IdentityError Bytes
text_or e (some (text_string s)) = ok s
text_or e _ = err e

abbrev pub bytes_or : IdentityError → Option Value → Result IdentityError Bytes
bytes_or e (some (byte_string b)) = ok b
bytes_or e _ = err e

unfoldable pub capability_from_cbor : Value → Result IdentityError CapabilityDescriptor
unfolding int_map_get
capability_from_cbor (int_map es) = do
  name ← text_or capability_name_invalid (int_map_get (int_map es) (pos 1))
  metadata ← metadata_from_cbor (int_map_get (int_map es) (pos 2))
  ok (record { name = name; metadata = metadata })
capability_from_cbor _ = err capability_not_int_map

pub record AgentRecord : Type 0 where
  pub record_type : Bytes
  pub agent_id : Bytes
  pub public_key : Bytes
  pub capabilities : List CapabilityDescriptor
  pub endpoints : List Bytes
  pub created_at : ℕ
  pub expires_at : ℕ
  pub signature : Bytes
  pub key_algorithm : ℕ
  pub record_version : ℕ

-- `caps`, where the loop over the capability `i` visits its metadata in the order `orders i`.
abbrev pub capability_items : (ℕ → Order) → ℕ → List CapabilityDescriptor → Items
capability_items orders i [] = no_items
capability_items orders i (c ∷ cs) =
    item (capability_to_cbor (orders i) c) (capability_items orders (i + 1) cs)

-- `eps`
abbrev pub endpoint_items : List Bytes → Items
endpoint_items [] = no_items
endpoint_items (e ∷ es) = item (text_string e) (endpoint_items es)

-- The entries before those appended.
unfoldable pub entries_without_sig : (ℕ → Order) → AgentRecord → IntEntries → IntEntries
entries_without_sig orders r rest = entry 1 (text_string r.record_type) (
    entry 2 (byte_string r.agent_id) (
      entry 3 (byte_string r.public_key) (
        entry 4 (array (capability_items orders 0 r.capabilities)) (
          entry 5 (array (endpoint_items r.endpoints)) (
            entry 6 (unsigned r.created_at) (
              entry 7 (unsigned r.expires_at) (
                entry 9 (unsigned r.key_algorithm)
                  (entry 10 (unsigned r.record_version) rest))))))))

unfoldable pub to_cbor_without_sig : (ℕ → Order) → AgentRecord → Value
unfolding entries_without_sig
to_cbor_without_sig orders r = int_map (entries_without_sig orders r no_ints)

unfoldable pub to_cbor : (ℕ → Order) → AgentRecord → Value
unfolding entries_without_sig
to_cbor orders r =
    int_map (entries_without_sig orders r (entry 8 (byte_string r.signature) no_ints))

-- The loop over key 4, which stops at the first error.
unfoldable pub capabilities_from_cbor : Items → Result IdentityError (List CapabilityDescriptor)
unfolding capability_from_cbor
capabilities_from_cbor no_items = ok []
capabilities_from_cbor (item v xs) = do
  c ← capability_from_cbor v
  cs ← capabilities_from_cbor xs
  ok (c ∷ cs)

-- The loop over key 5, which passes over what is no text.
abbrev pub endpoints_from_cbor : Items → List Bytes
endpoints_from_cbor no_items = []
endpoints_from_cbor (item (text_string s) xs) = s ∷ endpoints_from_cbor xs
endpoints_from_cbor (item _ xs) = endpoints_from_cbor xs

unfoldable pub agent_record_from_cbor : Value → Result IdentityError AgentRecord
unfolding int_map_get capabilities_from_cbor
agent_record_from_cbor (int_map es) = do
  record_type ← text_or missing_record_type (int_map_get (int_map es) (pos 1))
  agent_id ← bytes_or missing_agent_id (int_map_get (int_map es) (pos 2))
  public_key ← bytes_or missing_public_key (int_map_get (int_map es) (pos 3))
  capabilities ← capabilities_from_cbor (items_field (int_map_get (int_map es) (pos 4)))
  ok (record {
    record_type = record_type;
    agent_id = agent_id;
    public_key = public_key;
    capabilities = capabilities;
    endpoints = endpoints_from_cbor (items_field (int_map_get (int_map es) (pos 5)));
    created_at = unsigned_field (int_map_get (int_map es) (pos 6));
    expires_at = unsigned_field (int_map_get (int_map es) (pos 7));
    signature = bytes_field (int_map_get (int_map es) (pos 8));
    key_algorithm = unsigned_field (int_map_get (int_map es) (pos 9));
    record_version = unsigned_field (int_map_get (int_map es) (pos 10));
  })
agent_record_from_cbor _ = err record_not_int_map

-- `cbor.Encode` gives no error. The domain is the text of `record_type_v1`.
unfoldable pub signature_input : (ℕ → Order) → AgentRecord → Bytes
unfolding encode to_cbor_without_sig
signature_input orders r = record_type_v1 ++ encode (to_cbor_without_sig orders r)

module _ (sha256 : Bytes → Bytes) where
  unfoldable pub agent_id_from_pubkey : Bytes → Bytes
  agent_id_from_pubkey pubkey = sha256 pubkey

  unfoldable pub verify_agent_id : Bytes → Bytes → Bool
  unfolding agent_id_from_pubkey constant_time_eq
  verify_agent_id agent_id pubkey =
      let expected = agent_id_from_pubkey pubkey in
      if not (length agent_id == 32) || not (length expected == 32)
      then false
      else constant_time_eq agent_id expected

  -- `verify_fn` takes the public key, the message and the signature.
  unfoldable pub verify :
      (ℕ → Order)
      → AgentRecord
      → ℕ
      → (Bytes → Bytes → Bytes → Bool)
      → Result IdentityError (Unit {0})
  unfolding verify_agent_id signature_input
  verify orders r current_time verify_fn =
      if not (verify_agent_id r.agent_id r.public_key)
      then err invalid_agent_id
      else if not (bytes_eq r.record_type record_type_v1)
      then err invalid_record_type
      else if not (r.key_algorithm == key_alg_mldsa65)
      then err unsupported_key_algorithm
      else if not (verify_fn r.public_key (signature_input orders r) r.signature)
      then err signature_failed
      else if leb r.expires_at current_time
      then err expired
      else ok tt

unfoldable pub exceeds_max_expiry_warning : AgentRecord → ℕ → Bool
exceeds_max_expiry_warning r now =
    if leb r.expires_at now then false else ltb max_record_expiry (r.expires_at - now)
