-- ===== src/Wire/Extended/Lookups.antt =====
-- crates/ace-wire/src/extended.rs: the dictionary of a signed handshake holds these entries.
use outpace.Prelude.{ℕ, ◌≡◌, refl, ◌∙◌, false, Option, none, some, List, [], ◌∷◌, list_eq}
use outpace.Prelude.Ints.{pos}
use outpace.Wire.Bencode
use outpace.Wire.Bencode.{Bencode, Fields, int, bytes, dict, end}
use outpace.Wire.Identity
use outpace.Wire.Identity.{Ed25519Crate, Documented}
use outpace.Wire.Extended
use outpace.Wire.Extended.{OutgoingExtendedHandshake, ExtendedHandshake}
use outpace.Wire.Extended.Names
use outpace.Wire.Extended.Entries.{
  look, get_field-insert_field, get_field-inserted, get_field-inserted_option, get_field-own_option,
  get_field-replaced_option,
}

module _ (ed : Ed25519Crate) (id : ed.SigningKey) (h : OutgoingExtendedHandshake) where
  abbrev pub fields_of : Fields
  fields_of = Extended.with_signature ed (Extended.signed_fields ed h id) id

  abbrev head_entries : List (List ℕ × Bencode)
  head_entries =
      (Names.asn, int (pos 0))
      ∷ (Names.asn_country, bytes [])
      ∷ (Names.geoip_country, bytes [])
      ∷ (Names.lsp, int (Extended.root_lsp h.mi))
      ∷ []

  unsigned_field :
      (q : List ℕ)
      → list_eq q Names.signature ≡ false
      → Bencode.get_field q fields_of ≡ Bencode.get_field q (Extended.signed_fields ed h id)
  unfolding Extended.with_signature Extended.inserted_option
  unsigned_field q e = get_field-inserted_option q Names.signature (some _) _ e

  before_ip : Fields
  before_ip = Extended.inserted (Extended.node_entries ed h.node id) (
      Extended.inserted_option Names.node_state (Extended.node_state (Extended.root_lsp h.mi)) (
        Extended.inserted head_entries (
          Extended.inserted_option Names.mi (Extended.map_option Extended.full_position h.mi)
            (Extended.base_fields h))))

  -- A key that only the base fields have.
  base_field :
      (q : List ℕ)
      → ((d : Option Bencode) → look q (Extended.node_entries ed h.node id) d ≡ d)
      → list_eq q Names.node_state ≡ false
      → ((d : Option Bencode) → look q head_entries d ≡ d)
      → list_eq q Names.mi ≡ false
      → Bencode.get_field q before_ip ≡ Bencode.get_field q (Extended.base_fields h)
  unfolding before_ip
  base_field q nodes state heads mi =
      get_field-inserted q (Extended.node_entries ed h.node id) _
      ∙ (nodes _
          ∙ (get_field-inserted_option q Names.node_state _ _ state
              ∙ (get_field-inserted q head_entries _
                  ∙ (heads _
                      ∙ get_field-inserted_option q Names.mi _ (Extended.base_fields h) mi))))

  no_ip :
      (q : List ℕ)
      → list_eq q Names.yourip ≡ false
      → Bencode.get_field q (Extended.signed_fields ed h id) ≡ Bencode.get_field q before_ip
  unfolding Extended.signed_fields before_ip
  no_ip q e = get_field-inserted_option q Names.yourip _ _ e

  base_option :
      (q : List ℕ)
      → list_eq q Names.metadata_size ≡ false
      → list_eq q Names.mi ≡ false
      → Bencode.get_field q (Extended.base_fields h)
        ≡ look q
            ((Names.ace_metadata_version, int h.ace_metadata_version)
              ∷ (
                Names.m,
                dict (Extended.inserted ((Names.ut_metadata, int h.ut_metadata_id) ∷ []) end),
              )
              ∷ [])
            none
  unfolding Extended.base_fields Bencode.get_field
  base_option q size mi =
      get_field-inserted_option q Names.metadata_size _ _ size
      ∙ (get_field-inserted_option q Names.mi _ _ mi ∙ get_field-inserted q _ end)

  pub version_field :
      Bencode.get_field Names.ace_metadata_version fields_of ≡ some (int h.ace_metadata_version)
  unfolding Extended.node_entries
  version_field =
      unsigned_field Names.ace_metadata_version refl
      ∙ (no_ip Names.ace_metadata_version refl
          ∙ (base_field Names.ace_metadata_version (λ d. refl) refl (λ d. refl) refl
              ∙ base_option Names.ace_metadata_version refl refl))

  pub m_field :
      Bencode.get_field Names.m fields_of
      ≡ some (dict (Extended.inserted ((Names.ut_metadata, int h.ut_metadata_id) ∷ []) end))
  unfolding Extended.node_entries
  m_field =
      unsigned_field Names.m refl
      ∙ (no_ip Names.m refl
          ∙ (base_field Names.m (λ d. refl) refl (λ d. refl) refl ∙ base_option Names.m refl refl))

  pub size_field :
      Bencode.get_field Names.metadata_size fields_of ≡ Extended.map_option int h.metadata_size
  unfolding Extended.node_entries Extended.base_fields Bencode.get_field
  size_field =
      unsigned_field Names.metadata_size refl
      ∙ (no_ip Names.metadata_size refl
          ∙ (base_field Names.metadata_size (λ d. refl) refl (λ d. refl) refl
              ∙ get_field-own_option Names.metadata_size _ _ (
                  get_field-inserted_option Names.metadata_size Names.mi _ _ refl
                  ∙ get_field-inserted Names.metadata_size _ end)))

  pub ip_field : Bencode.get_field Names.yourip fields_of ≡ Extended.map_option bytes h.peer_ip
  unfolding Extended.node_entries Extended.signed_fields before_ip
  ip_field =
      unsigned_field Names.yourip refl
      ∙ get_field-own_option Names.yourip _ before_ip (
          base_field Names.yourip (λ d. refl) refl (λ d. refl) refl
          ∙ base_option Names.yourip refl refl)

  pub node_id_field :
      Bencode.get_field Names.node_id fields_of ≡ some (bytes (Identity.node_id ed id))
  unfolding Extended.node_entries before_ip
  node_id_field =
      unsigned_field Names.node_id refl
      ∙ (no_ip Names.node_id refl
          ∙ get_field-inserted Names.node_id (Extended.node_entries ed h.node id) _)

  -- A key of the node's entries.
  node_field :
      (q : List ℕ) (b : Bencode)
      → list_eq q Names.signature ≡ false
      → list_eq q Names.yourip ≡ false
      → ((d : Option Bencode) → look q (Extended.node_entries ed h.node id) d ≡ some b)
      → Bencode.get_field q fields_of ≡ some b
  unfolding before_ip
  node_field q b signature ip nodes =
      unsigned_field q signature
      ∙ (no_ip q ip ∙ (get_field-inserted q (Extended.node_entries ed h.node id) _ ∙ nodes _))

  -- The fields of the node.
  pub node_fields :
      (Bencode.get_field Names.ts fields_of ≡ some (int h.node.ts))
      × (Bencode.get_field Names.v fields_of ≡ some (int h.node.v))
      × (Bencode.get_field Names.pv fields_of ≡ some (int h.node.pv))
      × (Bencode.get_field Names.p fields_of ≡ some (int h.node.p))
      × (Bencode.get_field Names.nt fields_of ≡ some (int h.node.nt))
      × (Bencode.get_field Names.platform fields_of ≡ some (int h.node.platform))
  unfolding Extended.node_entries
  node_fields = (
    node_field Names.ts _ refl refl (λ d. refl),
    node_field Names.v _ refl refl (λ d. refl),
    node_field Names.pv _ refl refl (λ d. refl),
    node_field Names.p _ refl refl (λ d. refl),
    node_field Names.nt _ refl refl (λ d. refl),
    node_field Names.platform _ refl refl (λ d. refl),
  )

  -- The full position replaces the short one.
  pub mi_field :
      Bencode.get_field Names.mi fields_of ≡ Extended.map_option Extended.full_position h.mi
  unfolding Extended.node_entries Extended.base_fields Bencode.get_field before_ip
  mi_field =
      unsigned_field Names.mi refl
      ∙ (no_ip Names.mi refl
          ∙ (get_field-inserted Names.mi (Extended.node_entries ed h.node id) _
              ∙ (get_field-inserted_option Names.mi Names.node_state _ _ refl
                  ∙ (get_field-inserted Names.mi head_entries _
                      ∙ get_field-replaced_option Names.mi Extended.full_position
                          (λ p. dict (Extended.position_fields p)) h.mi (Extended.base_fields h)
                          (get_field-inserted_option Names.mi Names.metadata_size _ _ refl
                            ∙ get_field-own_option Names.mi _ _
                                (get_field-inserted Names.mi _ end))))))

  pub signature_field :
      Bencode.get_field Names.signature fields_of
      ≡ some (
          bytes
            (Identity.sign ed id (Identity.handshake_digest ed (Extended.signed_fields ed h id))))
  unfolding Extended.with_signature
  signature_field = get_field-insert_field Names.signature Names.signature _ _
