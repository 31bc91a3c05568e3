-- ===== src/Wire/Extended/Reading.antt =====
-- crates/ace-wire/src/extended.rs and identity.rs: the handshake that is sent is read back by its
-- receiver.
use outpace.Prelude.{
  ℕ, ◌<◌, ◌≡◌, refl, sym, ap, ◌∙◌, subst, true, Option, none, some, List, [], ◌∷◌, length,
  append-nil, u64_mod, arith,
}
use outpace.Prelude.Ints.{ℤ}
use outpace.Wire.{ok}
use outpace.Wire.Bencode
use outpace.Wire.Bencode.{Bencode, Fields, int, bytes, dict, end}
use outpace.Wire.Bencode.RoundTrip.{parse-encode}
use outpace.Wire.Live
use outpace.Wire.Identity
use outpace.Wire.Identity.{Ed25519Crate, Documented}
use outpace.Wire.Extended
use outpace.Wire.Extended.{LivePosition, NodeFields, OutgoingExtendedHandshake, ExtendedHandshake}
use outpace.Wire.Extended.Entries.{get_field-inserted}
use outpace.Wire.Extended.Names
use outpace.Wire.Extended.Lookups.{
  fields_of, mi_field, node_fields, version_field, m_field, size_field, ip_field, node_id_field,
  signature_field,
}
use outpace.Wire.Extended.Signed.{
  IsOutgoing, IsIp, signed_fields-AreFields, with_signature-IsValue, own_signature,
}

-- The live position that is read under `mi`, where one is sent: the four numbers of the sender's
-- position, and the source's end, which is the highest piece where the position has a live head.
pub record PositionRead (p : LivePosition) (m : Bencode) : Type 0 where
  pub min_is : Live.get_int m Names.min_piece ≡ some p.min_piece
  pub max_is : Live.get_int m Names.max_piece ≡ some p.max_piece
  pub position_is : Live.get_int m Names.position ≡ some p.position
  pub distance_is : Live.get_int m Names.distance_from_source ≡ some p.distance_from_source
  pub end_is : Live.get_int m Names.download_window_end ≡ some (Extended.source_end p)

abbrev pub MiRead : Option LivePosition → Option Bencode → Type 0
MiRead none o = o ≡ none
MiRead (some p) o = (m : Bencode) × (o ≡ some m) × PositionRead p m

pub record NodeRead (n : NodeFields) (raw : Bencode) : Type 0 where
  pub ts_is : Live.get_int raw Names.ts ≡ some n.ts
  pub v_is : Live.get_int raw Names.v ≡ some n.v
  pub pv_is : Live.get_int raw Names.pv ≡ some n.pv
  pub p_is : Live.get_int raw Names.p ≡ some n.p
  pub nt_is : Live.get_int raw Names.nt ≡ some n.nt
  pub platform_is : Live.get_int raw Names.platform ≡ some n.platform

-- What the receiver of a handshake reads of it, and that it accepts the signature.
pub record Readable (ed : Ed25519Crate) (id : ed.SigningKey) (h : OutgoingExtendedHandshake)
    (e : ExtendedHandshake) : Type 0 where
  pub fields : Fields
  pub signature : List ℕ
  pub raw_is : e.raw ≡ dict fields
  pub version_is : e.ace_metadata_version ≡ some h.ace_metadata_version
  pub metadata_id_is : Extended.ut_metadata_id e ≡ some h.ut_metadata_id
  pub metadata_size_is : Extended.metadata_size e ≡ h.metadata_size
  pub yourip_is : Extended.yourip e ≡ h.peer_ip
  pub mi_is : MiRead h.mi (Bencode.get e.raw Names.mi)
  pub node_is : NodeRead h.node e.raw
  pub node_id_is : Extended.get_bytes e.raw Names.node_id ≡ some (Identity.node_id ed id)
  pub signature_is : Extended.get_bytes e.raw Names.signature ≡ some signature
  pub accepted : Identity.verify_handshake ed (Identity.node_id ed id) signature fields ≡ true

read_int :
    (d : Fields) (k : List ℕ) (o : Option ℤ)
    → Bencode.get_field k d ≡ Extended.map_option int o
    → Live.get_int (dict d) k ≡ o
unfolding Live.get_int Bencode.get Bencode.as_int Extended.map_option
read_int d k none e = rw (e, Live.get_int, Bencode.get) refl
read_int d k (some i) e = rw (e, Live.get_int, Bencode.get) refl

read_bytes :
    (d : Fields) (k : List ℕ) (o : Option (List ℕ))
    → Bencode.get_field k d ≡ Extended.map_option bytes o
    → Extended.get_bytes (dict d) k ≡ o
unfolding Extended.get_bytes Bencode.get Bencode.as_bytes Extended.map_option
read_bytes d k none e = rw (e, Extended.get_bytes, Bencode.get) refl
read_bytes d k (some b) e = rw (e, Extended.get_bytes, Bencode.get) refl

read_metadata_id :
    (e : ExtendedHandshake) (d : Fields) (i : ℤ)
    → e.raw ≡ dict d
    → Bencode.get_field Names.m d
      ≡ some (dict (Extended.inserted ((Names.ut_metadata, int i) ∷ []) end))
    → Extended.ut_metadata_id e ≡ some i
unfolding Extended.ut_metadata_id Bencode.get Extended.inserted Bencode.insert_field Live.get_int
    Bencode.get_field Bencode.as_int
read_metadata_id e d i r h =
    let found : Bencode.get e.raw Names.m
        ≡ some (dict (Extended.inserted ((Names.ut_metadata, int i) ∷ []) end)) =
      ap (λ (t : Bencode). Bencode.get t Names.m) r ∙ h in
    rw (found, Extended.ut_metadata_id) refl

read_ip :
    (e : ExtendedHandshake) (o : Option (List ℕ))
    → IsIp o
    → Extended.get_bytes e.raw Names.yourip ≡ o
    → Extended.yourip e ≡ o
unfolding Extended.yourip
read_ip e none i h = rw (h, Extended.yourip) refl
read_ip e (some b) i h = rw (h, Extended.yourip) (ground (arith, i))

full_position-PositionRead : (p : LivePosition) → PositionRead p (Extended.full_position p)
unfolding Extended.full_position Extended.map_option
full_position-PositionRead p = record {
  min_is = read_int _ Names.min_piece (some p.min_piece) (get_field-inserted Names.min_piece _ end);
  max_is = read_int _ Names.max_piece (some p.max_piece) (get_field-inserted Names.max_piece _ end);
  position_is =
      read_int _ Names.position (some p.position) (get_field-inserted Names.position _ end);
  distance_is =
      read_int _ Names.distance_from_source (some p.distance_from_source)
        (get_field-inserted Names.distance_from_source _ end);
  end_is =
      read_int _ Names.download_window_end (some (Extended.source_end p))
        (get_field-inserted Names.download_window_end _ end);
}

read_mi :
    (o : Option LivePosition) (found : Option Bencode)
    → found ≡ Extended.map_option Extended.full_position o
    → MiRead o found
unfolding Extended.map_option
read_mi none found e = e
read_mi (some p) found e = (Extended.full_position p, e, full_position-PositionRead p)

module _ (ed : Ed25519Crate) (id : ed.SigningKey) (h : OutgoingExtendedHandshake) where
  read_node : NodeRead h.node (dict (fields_of ed id h))
  unfolding Extended.map_option
  read_node =
      let (ts, v, pv, p, nt, platform) = node_fields ed id h in
      record {
        ts_is = read_int _ Names.ts (some h.node.ts) ts;
        v_is = read_int _ Names.v (some h.node.v) v;
        pv_is = read_int _ Names.pv (some h.node.pv) pv;
        p_is = read_int _ Names.p (some h.node.p) p;
        nt_is = read_int _ Names.nt (some h.node.nt) nt;
        platform_is = read_int _ Names.platform (some h.node.platform) platform;
      }

parse-whole :
    (d : Fields)
    → Bencode.parse (Bencode.encode (dict d)) ≡ ok (dict d)
    → Extended.parse (Bencode.encode (dict d)) ≡ Extended.handshake_of (dict d)
unfolding Extended.parse
parse-whole d e = rw (e, Extended.parse) refl

-- A handshake of 64-bit numbers and, if any, a four-byte address, signed and encoded in less than 2^64
-- bytes, with crates that keep what they document: the receiver reads back the version, the id for
-- ut_metadata, the metadata's size, the address, the node's six numbers and the live position, of
-- which there is none where none was sent; it finds the sender's public key and a signature in it,
-- and accepts that signature under that key.
pub parse-sign_and_encode :
    (ed : Ed25519Crate) (id : ed.SigningKey) (h : OutgoingExtendedHandshake)
    → Documented ed
    → IsOutgoing h
    → length (Extended.sign_and_encode ed h id) < u64_mod
    → (e : ExtendedHandshake) × (Extended.parse (Extended.sign_and_encode ed h id) ≡ ok e)
      × Readable ed id h e
unfolding Extended.sign_and_encode Extended.handshake_of Extended.metadata_size
parse-sign_and_encode ed id h doc o small =
    let fs = Extended.signed_fields ed h id in
    let d : Fields = Extended.with_signature ed fs id in
    let text = Bencode.encode (dict d) in
    let e : ExtendedHandshake = record {
      raw = dict d;
      ace_metadata_version = Live.get_int (dict d) Names.ace_metadata_version;
      geoip_country = Extended.get_text (dict d) Names.geoip_country;
    } in
    let read : Bencode.parse text ≡ ok (dict d) =
      ap Bencode.parse (sym (append-nil text))
      ∙ parse-encode (dict d) []
          (with_signature-IsValue ed id fs (signed_fields-AreFields ed id h o))
          (subst (λ t. length t < u64_mod) (sym (append-nil text)) small) in
    (
      e,
      parse-whole d read,
      record {
        fields = d;
        signature = Identity.sign ed id (Identity.handshake_digest ed fs);
        raw_is = refl;
        version_is =
            unfold Extended.map_option in
            read_int d Names.ace_metadata_version (some h.ace_metadata_version)
              (version_field ed id h);
        metadata_id_is = read_metadata_id e d h.ut_metadata_id refl (m_field ed id h);
        metadata_size_is = read_int d Names.metadata_size h.metadata_size (size_field ed id h);
        yourip_is =
            read_ip e h.peer_ip o.ip (read_bytes d Names.yourip h.peer_ip (ip_field ed id h));
        mi_is = unfold Bencode.get in read_mi h.mi _ (mi_field ed id h);
        node_is = read_node ed id h;
        node_id_is =
            unfold Extended.map_option in
            read_bytes d Names.node_id (some (Identity.node_id ed id)) (node_id_field ed id h);
        signature_is =
            unfold Extended.map_option in
            read_bytes d Names.signature (some _) (signature_field ed id h);
        accepted = own_signature ed id fs doc;
      },
    )
