-- ===== src/Fixtures/Runs.antt =====
-- cmd/generate_interop_fixtures/main.go with a stand-in for SHA-256 and for HMAC-SHA256.
use mathlib.Core.List.Permᴰ
use aafp_go.Base.{ℕ, ◌^◌, ◌≡◌, refl, true, Bytes, [], ◌∷◌, ◌++◌, All, none, ok, arith, be_bytes}
use aafp_go.Cbor.{Limits, n_int}
use aafp_go.Cbor.Head.{encode_head}
use aafp_go.Cbor.Encode.{encode, int_key_less, encode_int_key, encode_text, str_key_less}
use aafp_go.Identity.{Order, to_cbor_without_sig, to_cbor, entries_without_sig, capability_to_cbor}
use aafp_go.Identity.Metadata.{VisitsOnce}
use aafp_go.Messages.{
  client_hello_to_cbor_without_sig_and_mac, server_hello_to_cbor_without_sig,
  client_finished_to_cbor_without_sig,
}
use aafp_go.Fixtures.{bytes_filled, cbor_fixtures, rpc_fixtures}
use aafp_go.Fixtures.Peers.{
  record_a, record_b, record_with_sig, hello, answer, finished, handshake_fixtures, record_fixtures,
}
use aafp_go.Fixtures.Generate.{Os, Disk, main, output_dir}
use aafp_go.Fixtures.Checked.{all_values, Accepted, HasRoom, fixtures-canonical}
use aafp_go.Fixtures.Written.{Obliging}
use aafp_go.Fixtures.Agreeing.{Agreeing, main-Agreeing}

abbrev ones : Bytes → Bytes
ones bs = 1 ∷ 1 ∷ []

abbrev mac : Bytes → Bytes → Bytes
mac key bs = 1 ∷ []

abbrev disk_os : Os
disk_os = record {
  mkdir_all = λ dir. true;
  write_file = λ path content. true;
  join = λ dir name. dir ++ (47 ∷ name);
}

disk_os-Obliging : Obliging disk_os
disk_os-Obliging = record { makes = λ dir. refl; writes = λ path content. refl }

abbrev stored : ℕ → Order
stored i es = es

main-Agreeing_example :
    (disk : Disk) × (main disk_os ones mac stored none ≡ ok disk)
    × Agreeing disk_os ones mac (output_dir none) disk
main-Agreeing_example = main-Agreeing disk_os disk_os-Obliging ones mac stored none

abbrev wide : Limits
wide = record { max_values = 2 ^ 40; max_pairs = 2 ^ 40 }

all_values-HasRoom : All (HasRoom wide) (all_values ones stored)
unfolding encode encode_head be_bytes n_int int_key_less encode_int_key encode_text str_key_less
    cbor_fixtures bytes_filled handshake_fixtures hello answer finished
    client_hello_to_cbor_without_sig_and_mac server_hello_to_cbor_without_sig
    client_finished_to_cbor_without_sig record_fixtures record_a record_b record_with_sig
    to_cbor_without_sig to_cbor entries_without_sig capability_to_cbor rpc_fixtures
all_values-HasRoom = ground arith

stored-VisitsOnce : (i : ℕ) → VisitsOnce (stored i)
stored-VisitsOnce i es = Permᴰ.refl es

fixtures-canonical_example : All (Accepted wide) (all_values ones stored)
fixtures-canonical_example =
    fixtures-canonical wide ones stored stored-VisitsOnce all_values-HasRoom
