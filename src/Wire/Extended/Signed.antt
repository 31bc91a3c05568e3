-- ===== src/Wire/Extended/Signed.antt =====
-- crates/ace-wire/src/extended.rs and identity.rs: a handshake that is signed and sent is read back with
-- its fields, and its signature is accepted.
use outpace.Prelude.{
  ℕ, ◌+◌, ◌-◌, ◌%◌, ◌^◌, ◌≡◌, ap, true, Option, none, some, List, length, ltb, Bool-cases, inl, inr,
  arith,
}
use outpace.Prelude.Ints.{ℤ}
use outpace.Wire.Bencode
use outpace.Wire.Bencode.{Bencode, Fields, int, bytes, dict, end}
use outpace.Wire.Bencode.Decimal.Digits.{IsI64}
use outpace.Wire.Bencode.Values.{IsValue, AreFields}
use outpace.Wire.Identity
use outpace.Wire.Identity.{Ed25519Crate, Documented}
use outpace.Wire.Extended
use outpace.Wire.Extended.{LivePosition, NodeFields, OutgoingExtendedHandshake, ExtendedHandshake}
use outpace.Wire.Extended.Names
use outpace.Wire.Extended.Entries.{
  insert_field-insert_field, insert_field-AreFields, inserted-AreFields, IsOption,
  inserted_option-AreFields,
}

-- The numbers are 64-bit integers.
pub record IsPosition (p : LivePosition) : Type 0 where
  pub low : IsI64 p.min_piece
  pub high : IsI64 p.max_piece
  pub place : IsI64 p.position
  pub distance : IsI64 p.distance_from_source

pub record IsNode (n : NodeFields) : Type 0 where
  pub ts_is : IsI64 n.ts
  pub v_is : IsI64 n.v
  pub pv_is : IsI64 n.pv
  pub p_is : IsI64 n.p
  pub nt_is : IsI64 n.nt
  pub platform_is : IsI64 n.platform

abbrev pub IsMi : Option LivePosition → Type 0
IsMi none = Unit {0}
IsMi (some p) = IsPosition p

abbrev pub IsSize : Option ℤ → Type 0
IsSize none = Unit {0}
IsSize (some i) = IsI64 i

abbrev pub IsIp : Option (List ℕ) → Type 0
IsIp none = Unit {0}
IsIp (some b) = length b ≡ 4

pub record IsOutgoing (h : OutgoingExtendedHandshake) : Type 0 where
  pub version : IsI64 h.ace_metadata_version
  pub metadata_id : IsI64 h.ut_metadata_id
  pub position : IsMi h.mi
  pub node_is : IsNode h.node
  pub size : IsSize h.metadata_size
  pub ip : IsIp h.peer_ip

span_of-IsI64 : (a b : ℤ) → IsI64 (Extended.span_of a b)
unfolding Extended.span_of
span_of-IsI64 a b =
    let n : ℕ = (Extended.bits_of b + 2 ^ 64 - Extended.bits_of a + 1) % 2 ^ 64 in
    elim (Bool-cases (ltb n (2 ^ 63))) [
      | inl e ↦ rw e (ground (arith, e))
      | inr e ↦ rw e (omega arith)
    ]

source_end-IsI64 : (p : LivePosition) → IsPosition p → IsI64 (Extended.source_end p)
unfolding Extended.source_end
source_end-IsI64 p h = elim (Bool-cases (Extended.has_live_head p)) [
  | inl e ↦ rw e h.high
  | inr e ↦ rw e (omega arith)
]

live_window_size-IsI64 : (p : LivePosition) → IsI64 (Extended.live_window_size p)
unfolding Extended.live_window_size
live_window_size-IsI64 p = elim (Bool-cases (Extended.has_live_head p)) [
  | inl e ↦ rw e (omega arith)
  | inr e ↦ rw e (span_of-IsI64 p.min_piece p.max_piece)
]

root_lsp-IsI64 : (o : Option LivePosition) → IsMi o → IsI64 (Extended.root_lsp o)
unfolding Extended.root_lsp
root_lsp-IsI64 none h = omega arith
root_lsp-IsI64 (some p) h = source_end-IsI64 p h

full_position-IsOption :
    (o : Option LivePosition) → IsMi o → IsOption 31 (Extended.map_option Extended.full_position o)
unfolding Extended.map_option Extended.full_position IsValue
full_position-IsOption none h = tt
full_position-IsOption (some p) h =
    inserted-AreFields 30 _ end
      (
        h.distance,
        (
          omega arith,
          (
            source_end-IsI64 p h,
            (
              omega arith,
              (
                live_window_size-IsI64 p,
                (
                  source_end-IsI64 p h,
                  (
                    omega arith,
                    (
                      h.high,
                      (
                        h.low,
                        (
                          omega arith,
                          (
                            omega arith,
                            (
                              h.place,
                              (
                                omega arith,
                                (omega arith, (omega arith, (omega arith, (omega arith, tt)))),
                              ),
                            ),
                          ),
                        ),
                      ),
                    ),
                  ),
                ),
              ),
            ),
          ),
        ),
      )
      tt

position_fields-IsOption :
    (o : Option LivePosition)
    → IsMi o
    → IsOption 31 (Extended.map_option (λ p. dict (Extended.position_fields p)) o)
unfolding Extended.map_option Extended.position_fields IsValue
position_fields-IsOption none h = tt
position_fields-IsOption (some p) h =
    inserted-AreFields 30 _ end (h.low, (h.high, (h.place, (h.distance, tt)))) tt

metadata_size-IsOption : (o : Option ℤ) → IsSize o → IsOption 31 (Extended.map_option int o)
unfolding Extended.map_option IsValue
metadata_size-IsOption none h = tt
metadata_size-IsOption (some i) h = h

node_state-IsOption : (i : ℤ) → IsOption 31 (Extended.node_state i)
unfolding Extended.node_state IsValue
node_state-IsOption i = elim (Bool-cases (Extended.not_negative i)) [
  | inl e ↦ rw e (omega arith)
  | inr e ↦ rw e tt
]

peer_ip-IsOption : (o : Option (List ℕ)) → IsOption 31 (Extended.map_option bytes o)
unfolding Extended.map_option IsValue
peer_ip-IsOption none = tt
peer_ip-IsOption (some b) = tt

base_fields-AreFields :
    (h : OutgoingExtendedHandshake) → IsOutgoing h → AreFields 31 none (Extended.base_fields h)
unfolding Extended.base_fields IsValue
base_fields-AreFields h o =
    inserted_option-AreFields 31 Names.metadata_size _ _
      (metadata_size-IsOption h.metadata_size o.size)
      (inserted_option-AreFields 31 Names.mi _ _ (position_fields-IsOption h.mi o.position) (
        inserted-AreFields 31 _ end
          (o.version, (inserted-AreFields 30 _ end (o.metadata_id, tt) tt, tt)) tt))

module _ (ed : Ed25519Crate) (id : ed.SigningKey) where
  pub signed_fields-AreFields :
      (h : OutgoingExtendedHandshake)
      → IsOutgoing h
      → AreFields 31 none (Extended.signed_fields ed h id)
  unfolding Extended.signed_fields Extended.node_entries IsValue
  signed_fields-AreFields h o =
      let n = o.node_is in
      inserted_option-AreFields 31 Names.yourip _ _ (peer_ip-IsOption h.peer_ip) (
        inserted-AreFields 31 _ _
          (tt, (n.nt_is, (n.p_is, (n.platform_is, (n.pv_is, (tt, (n.ts_is, (tt, (n.v_is, tt)))))))))
          (inserted_option-AreFields 31 Names.node_state _ _ (node_state-IsOption _) (
            inserted-AreFields 31 _ _
              (omega arith, (tt, (tt, (root_lsp-IsI64 h.mi o.position, tt))))
              (inserted_option-AreFields 31 Names.mi _ _ (full_position-IsOption h.mi o.position)
                (base_fields-AreFields h o)))))

  pub with_signature-IsValue :
      (fs : Fields) → AreFields 31 none fs → IsValue 32 (dict (Extended.with_signature ed fs id))
  unfolding Extended.with_signature IsValue
  with_signature-IsValue fs h = insert_field-AreFields 31 none Names.signature _ fs tt tt h

  -- A signature put in afterwards does not change what was signed.
  digest_ignores_signature :
      (fs : Fields)
      → Identity.handshake_digest ed (Extended.with_signature ed fs id)
        ≡ Identity.handshake_digest ed fs
  unfolding Identity.handshake_digest Extended.with_signature
  digest_ignores_signature fs =
      ap (λ (d : Fields). ed.sha256 (Bencode.encode (dict d)))
        (insert_field-insert_field Names.signature _ _ fs)

  pub own_signature :
      (fs : Fields)
      → Documented ed
      → Identity.verify_handshake ed
          (Identity.node_id ed id)
          (Identity.sign ed id (Identity.handshake_digest ed fs))
          (Extended.with_signature ed fs id)
        ≡ true
  unfolding Identity.verify_handshake Identity.node_id Identity.sign
  own_signature fs doc =
      let known = doc.key_round_trip (ed.verifying_key id) in
      rw (known, digest_ignores_signature fs, Identity.verify_handshake)
        (doc.accepts id (Identity.handshake_digest ed fs))
