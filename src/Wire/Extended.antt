-- ===== src/Wire/Extended.antt =====
-- crates/ace-wire/src/extended.rs: the extended handshake, sent and received. A BTreeMap is the fields of a
-- bencoded dictionary; an i64 sum wraps, as it does in a release build.
pub mod Names
pub mod Entries
pub mod Signed
pub mod Lookups
pub mod Reading
mod Tests
use outpace.Prelude.{
  ℕ, ◌+◌, ◌-◌, ◌%◌, ◌^◌, ◌&&◌, ◌==◌, Bool, true, false, Option, none, some, List, [], ◌∷◌, length,
  ltb, leb, get_elem?, get_or, if◌then◌else◌,
}
use outpace.Prelude.Ints.{ℤ, pos, negsuc}
use outpace.Wire.{Result, ok, err, invalid}
use outpace.Wire.Bencode
use outpace.Wire.Bencode.{Bencode, Fields, int, bytes, list, dict, end}
use outpace.Wire.Bencode.Decimal.{is_utf8}
use outpace.Wire.Live
use outpace.Wire.Identity
use outpace.Wire.Identity.{Ed25519Crate}

pub record LivePosition : Type 0 where
  pub min_piece : ℤ
  pub max_piece : ℤ
  pub position : ℤ
  pub distance_from_source : ℤ

pub record NodeFields : Type 0 where
  pub ts : ℤ
  pub v : ℤ
  pub pv : ℤ
  pub p : ℤ
  pub nt : ℤ
  pub platform : ℤ

abbrev pub default_node : NodeFields
default_node = record {
  ts = pos 0;
  v = pos 3021100;
  pv = pos 2;
  p = pos 8621;
  nt = pos 1;
  platform = pos 2;
}

pub record OutgoingExtendedHandshake : Type 0 where
  pub ace_metadata_version : ℤ
  pub ut_metadata_id : ℤ
  pub mi : Option LivePosition
  pub node : NodeFields
  pub peer_ip : Option (List ℕ)
  pub metadata_size : Option ℤ

-- `BTreeMap::insert` of one entry after another.
unfoldable pub inserted : List (List ℕ × Bencode) → Fields → Fields
inserted [] fs = fs
inserted ((k, v) ∷ es) fs = inserted es (Bencode.insert_field k v fs)

-- The entry of an optional value.
unfoldable pub inserted_option : List ℕ → Option Bencode → Fields → Fields
inserted_option k none fs = fs
inserted_option k (some v) fs = Bencode.insert_field k v fs

unfoldable pub position_fields : LivePosition → Fields
position_fields p =
    inserted
      ((Names.min_piece, int p.min_piece)
        ∷ (Names.max_piece, int p.max_piece)
        ∷ (Names.position, int p.position)
        ∷ (Names.distance_from_source, int p.distance_from_source)
        ∷ [])
      end

unfoldable pub map_option {ℓ κ} : {A : Type ℓ} {B : Type κ} → (A → B) → Option A → Option B
map_option f none = none
map_option f (some a) = some (f a)

unfoldable pub base_fields : OutgoingExtendedHandshake → Fields
base_fields h = inserted_option Names.metadata_size (map_option int h.metadata_size) (
    inserted_option Names.mi (map_option (λ p. dict (position_fields p)) h.mi) (
      inserted
        ((Names.ace_metadata_version, int h.ace_metadata_version)
          ∷ (Names.m, dict (inserted ((Names.ut_metadata, int h.ut_metadata_id) ∷ []) end))
          ∷ [])
        end))

unfoldable pub encode_payload : OutgoingExtendedHandshake → List ℕ
encode_payload h = Bencode.encode (dict (base_fields h))

unfoldable pub not_negative : ℤ → Bool
not_negative (pos n) = true
not_negative (negsuc n) = false

-- `a <= b`.
unfoldable pub le_int : ℤ → ℤ → Bool
le_int (pos a) (pos b) = leb a b
le_int (pos a) (negsuc b) = false
le_int (negsuc a) (pos b) = true
le_int (negsuc a) (negsuc b) = leb b a

unfoldable pub has_live_head : LivePosition → Bool
has_live_head p =
    not_negative p.position && (le_int p.min_piece p.max_piece && not_negative p.max_piece)

unfoldable pub bits_of : ℤ → ℕ
bits_of (pos n) = n
bits_of (negsuc n) = 2 ^ 64 - 1 - n

-- `(max - min + 1).max(0)`.
unfoldable pub span_of : (min_piece max_piece : ℤ) → ℤ
span_of min_piece max_piece =
    let n = (bits_of max_piece + 2 ^ 64 - bits_of min_piece + 1) % 2 ^ 64 in
    if ltb n (2 ^ 63) then pos n else pos 0

unfoldable pub source_end : LivePosition → ℤ
source_end p = if has_live_head p then p.max_piece else negsuc 0

unfoldable pub live_window_size : LivePosition → ℤ
live_window_size p = if has_live_head p then pos 115 else span_of p.min_piece p.max_piece

unfoldable pub full_position : LivePosition → Bencode
full_position p = dict (
    inserted
      ((Names.distance_from_source, int p.distance_from_source)
        ∷ (Names.down_rate, int (pos 0))
        ∷ (Names.download_window_end, int (source_end p))
        ∷ (Names.is_accessible, int (pos 0))
        ∷ (Names.live_window_size, int (live_window_size p))
        ∷ (Names.lsp, int (source_end p))
        ∷ (Names.mam, int (negsuc 0))
        ∷ (Names.max_piece, int p.max_piece)
        ∷ (Names.min_piece, int p.min_piece)
        ∷ (Names.peer_type, int (pos 0))
        ∷ (Names.ping_from_source, int (negsuc 0))
        ∷ (Names.position, int p.position)
        ∷ (Names.time_from_source, int (negsuc 0))
        ∷ (Names.top_session_up_rate, int (pos 0))
        ∷ (Names.top_up_rate, int (pos 0))
        ∷ (Names.up_rate, int (pos 0))
        ∷ (Names.upload_rating, int (pos 0))
        ∷ [])
      end)

unfoldable pub root_lsp : Option LivePosition → ℤ
root_lsp none = negsuc 0
root_lsp (some p) = source_end p

unfoldable pub node_state : ℤ → Option Bencode
node_state lsp = if not_negative lsp then some (int (pos 1)) else none

module _ (ed : Ed25519Crate) where
  -- The entries behind the node's state.
  unfoldable pub node_entries : NodeFields → (id : ed.SigningKey) → List (List ℕ × Bencode)
  node_entries node id =
      (Names.node_id, bytes (Identity.node_id ed id))
      ∷ (Names.nt, int node.nt)
      ∷ (Names.p, int node.p)
      ∷ (Names.platform, int node.platform)
      ∷ (Names.pv, int node.pv)
      ∷ (Names.stream_statuses, dict end)
      ∷ (Names.ts, int node.ts)
      ∷ (Names.tt, bytes (b'b' ∷ b't' ∷ []))
      ∷ (Names.v, int node.v)
      ∷ []

  -- All that is signed.
  unfoldable pub signed_fields : OutgoingExtendedHandshake → (id : ed.SigningKey) → Fields
  signed_fields h id =
      let lsp = root_lsp h.mi in
      inserted_option Names.yourip (map_option bytes h.peer_ip) (
        inserted (node_entries h.node id) (
          inserted_option Names.node_state (node_state lsp) (
            inserted
              ((Names.asn, int (pos 0))
                ∷ (Names.asn_country, bytes [])
                ∷ (Names.geoip_country, bytes [])
                ∷ (Names.lsp, int lsp)
                ∷ [])
              (inserted_option Names.mi (map_option full_position h.mi) (base_fields h)))))

  unfoldable pub with_signature : Fields → (id : ed.SigningKey) → Fields
  with_signature fs id =
      Bencode.insert_field Names.signature
        (bytes (Identity.sign ed id (Identity.handshake_digest ed fs))) fs

  unfoldable pub sign_and_encode : OutgoingExtendedHandshake → (id : ed.SigningKey) → List ℕ
  sign_and_encode h id = Bencode.encode (dict (with_signature (signed_fields h id) id))

-- A text is its bytes.
pub record ExtendedHandshake : Type 0 where
  pub raw : Bencode
  pub ace_metadata_version : Option ℤ
  pub geoip_country : Option (List ℕ)

unfoldable pub get_bytes : Bencode → List ℕ → Option (List ℕ)
get_bytes d key = elim (Bencode.get d key) [ none ↦ none | some v ↦ Bencode.as_bytes v ]

unfoldable pub get_text : Bencode → List ℕ → Option (List ℕ)
get_text d key = elim (get_bytes d key) [
  | none ↦ none
  | some b ↦ if is_utf8 b then some b else none
]

unfoldable pub handshake_of : Bencode → Result ExtendedHandshake
handshake_of (dict d) = ok (record {
  raw = dict d;
  ace_metadata_version = Live.get_int (dict d) Names.ace_metadata_version;
  geoip_country = get_text (dict d) Names.geoip_country;
})
handshake_of _ = err (invalid "extended handshake not a dict")

unfoldable pub parse : List ℕ → Result ExtendedHandshake
parse payload = elim (Bencode.parse payload) [ err e ↦ err e | ok raw ↦ handshake_of raw ]

unfoldable pub ut_metadata_id : ExtendedHandshake → Option ℤ
ut_metadata_id e = elim (Bencode.get e.raw Names.m) [
  | none ↦ none
  | some m ↦ Live.get_int m Names.ut_metadata
]

unfoldable pub metadata_size : ExtendedHandshake → Option ℤ
metadata_size e = Live.get_int e.raw Names.metadata_size

-- The octets of an IPv4 or an IPv6 address.
unfoldable pub yourip : ExtendedHandshake → Option (List ℕ)
yourip e = elim (get_bytes e.raw Names.yourip) [
  | none ↦ none
  | some b ↦ if length b == 4 then some b else if length b == 16 then some b else none
]
