-- ===== src/Wire/Extended/Names.antt =====
-- crates/ace-wire/src/extended.rs: the keys of the extended handshake.
use outpace.Prelude.{ℕ, List, [], ◌∷◌}

abbrev pub asn : List ℕ
asn = b'a' ∷ b's' ∷ b'n' ∷ []

abbrev pub asn_country : List ℕ
asn_country = b'a' ∷ b's' ∷ b'n' ∷ b'_' ∷ b'c' ∷ b'o' ∷ b'u' ∷ b'n' ∷ b't' ∷ b'r' ∷ b'y' ∷ []

abbrev pub geoip_country : List ℕ
geoip_country =
    b'g' ∷ b'e' ∷ b'o' ∷ b'i' ∷ b'p' ∷ b'_' ∷ b'c' ∷ b'o' ∷ b'u' ∷ b'n' ∷ b't' ∷ b'r' ∷ b'y' ∷ []

abbrev pub lsp : List ℕ
lsp = b'l' ∷ b's' ∷ b'p' ∷ []

abbrev pub node_state : List ℕ
node_state = b'n' ∷ b'o' ∷ b'd' ∷ b'e' ∷ b'_' ∷ b's' ∷ b't' ∷ b'a' ∷ b't' ∷ b'e' ∷ []

abbrev pub node_id : List ℕ
node_id = b'n' ∷ b'o' ∷ b'd' ∷ b'e' ∷ b'_' ∷ b'i' ∷ b'd' ∷ []

abbrev pub nt : List ℕ
nt = b'n' ∷ b't' ∷ []

abbrev pub p : List ℕ
p = b'p' ∷ []

abbrev pub platform : List ℕ
platform = b'p' ∷ b'l' ∷ b'a' ∷ b't' ∷ b'f' ∷ b'o' ∷ b'r' ∷ b'm' ∷ []

abbrev pub pv : List ℕ
pv = b'p' ∷ b'v' ∷ []

abbrev pub stream_statuses : List ℕ
stream_statuses =
    b's' ∷ b't' ∷ b'r' ∷ b'e' ∷ b'a' ∷ b'm' ∷ b'_' ∷ b's' ∷ b't' ∷ b'a' ∷ b't' ∷ b'u' ∷ b's' ∷ b'e'
    ∷ b's' ∷ []

abbrev pub ts : List ℕ
ts = b't' ∷ b's' ∷ []

abbrev pub tt : List ℕ
tt = b't' ∷ b't' ∷ []

abbrev pub v : List ℕ
v = b'v' ∷ []

abbrev pub yourip : List ℕ
yourip = b'y' ∷ b'o' ∷ b'u' ∷ b'r' ∷ b'i' ∷ b'p' ∷ []

abbrev pub signature : List ℕ
signature = b's' ∷ b'i' ∷ b'g' ∷ b'n' ∷ b'a' ∷ b't' ∷ b'u' ∷ b'r' ∷ b'e' ∷ []

abbrev pub ace_metadata_version : List ℕ
ace_metadata_version =
    b'a' ∷ b'c' ∷ b'e' ∷ b'_' ∷ b'm' ∷ b'e' ∷ b't' ∷ b'a' ∷ b'd' ∷ b'a' ∷ b't' ∷ b'a' ∷ b'_' ∷ b'v'
    ∷ b'e' ∷ b'r' ∷ b's' ∷ b'i' ∷ b'o' ∷ b'n' ∷ []

abbrev pub m : List ℕ
m = b'm' ∷ []

abbrev pub ut_metadata : List ℕ
ut_metadata = b'u' ∷ b't' ∷ b'_' ∷ b'm' ∷ b'e' ∷ b't' ∷ b'a' ∷ b'd' ∷ b'a' ∷ b't' ∷ b'a' ∷ []

abbrev pub mi : List ℕ
mi = b'm' ∷ b'i' ∷ []

abbrev pub metadata_size : List ℕ
metadata_size =
    b'm' ∷ b'e' ∷ b't' ∷ b'a' ∷ b'd' ∷ b'a' ∷ b't' ∷ b'a' ∷ b'_' ∷ b's' ∷ b'i' ∷ b'z' ∷ b'e' ∷ []

abbrev pub min_piece : List ℕ
min_piece = b'm' ∷ b'i' ∷ b'n' ∷ b'_' ∷ b'p' ∷ b'i' ∷ b'e' ∷ b'c' ∷ b'e' ∷ []

abbrev pub max_piece : List ℕ
max_piece = b'm' ∷ b'a' ∷ b'x' ∷ b'_' ∷ b'p' ∷ b'i' ∷ b'e' ∷ b'c' ∷ b'e' ∷ []

abbrev pub position : List ℕ
position = b'p' ∷ b'o' ∷ b's' ∷ b'i' ∷ b't' ∷ b'i' ∷ b'o' ∷ b'n' ∷ []

abbrev pub distance_from_source : List ℕ
distance_from_source =
    b'd' ∷ b'i' ∷ b's' ∷ b't' ∷ b'a' ∷ b'n' ∷ b'c' ∷ b'e' ∷ b'_' ∷ b'f' ∷ b'r' ∷ b'o' ∷ b'm' ∷ b'_'
    ∷ b's' ∷ b'o' ∷ b'u' ∷ b'r' ∷ b'c' ∷ b'e' ∷ []

abbrev pub down_rate : List ℕ
down_rate = b'd' ∷ b'o' ∷ b'w' ∷ b'n' ∷ b'_' ∷ b'r' ∷ b'a' ∷ b't' ∷ b'e' ∷ []

abbrev pub download_window_end : List ℕ
download_window_end =
    b'd' ∷ b'o' ∷ b'w' ∷ b'n' ∷ b'l' ∷ b'o' ∷ b'a' ∷ b'd' ∷ b'_' ∷ b'w' ∷ b'i' ∷ b'n' ∷ b'd' ∷ b'o'
    ∷ b'w' ∷ b'_' ∷ b'e' ∷ b'n' ∷ b'd' ∷ []

abbrev pub is_accessible : List ℕ
is_accessible =
    b'i' ∷ b's' ∷ b'_' ∷ b'a' ∷ b'c' ∷ b'c' ∷ b'e' ∷ b's' ∷ b's' ∷ b'i' ∷ b'b' ∷ b'l' ∷ b'e' ∷ []

abbrev pub live_window_size : List ℕ
live_window_size =
    b'l' ∷ b'i' ∷ b'v' ∷ b'e' ∷ b'_' ∷ b'w' ∷ b'i' ∷ b'n' ∷ b'd' ∷ b'o' ∷ b'w' ∷ b'_' ∷ b's' ∷ b'i'
    ∷ b'z' ∷ b'e' ∷ []

abbrev pub mam : List ℕ
mam = b'm' ∷ b'a' ∷ b'm' ∷ []

abbrev pub peer_type : List ℕ
peer_type = b'p' ∷ b'e' ∷ b'e' ∷ b'r' ∷ b'_' ∷ b't' ∷ b'y' ∷ b'p' ∷ b'e' ∷ []

abbrev pub ping_from_source : List ℕ
ping_from_source =
    b'p' ∷ b'i' ∷ b'n' ∷ b'g' ∷ b'_' ∷ b'f' ∷ b'r' ∷ b'o' ∷ b'm' ∷ b'_' ∷ b's' ∷ b'o' ∷ b'u' ∷ b'r'
    ∷ b'c' ∷ b'e' ∷ []

abbrev pub time_from_source : List ℕ
time_from_source =
    b't' ∷ b'i' ∷ b'm' ∷ b'e' ∷ b'_' ∷ b'f' ∷ b'r' ∷ b'o' ∷ b'm' ∷ b'_' ∷ b's' ∷ b'o' ∷ b'u' ∷ b'r'
    ∷ b'c' ∷ b'e' ∷ []

abbrev pub top_session_up_rate : List ℕ
top_session_up_rate =
    b't' ∷ b'o' ∷ b'p' ∷ b'_' ∷ b's' ∷ b'e' ∷ b's' ∷ b's' ∷ b'i' ∷ b'o' ∷ b'n' ∷ b'_' ∷ b'u' ∷ b'p'
    ∷ b'_' ∷ b'r' ∷ b'a' ∷ b't' ∷ b'e' ∷ []

abbrev pub top_up_rate : List ℕ
top_up_rate = b't' ∷ b'o' ∷ b'p' ∷ b'_' ∷ b'u' ∷ b'p' ∷ b'_' ∷ b'r' ∷ b'a' ∷ b't' ∷ b'e' ∷ []

abbrev pub up_rate : List ℕ
up_rate = b'u' ∷ b'p' ∷ b'_' ∷ b'r' ∷ b'a' ∷ b't' ∷ b'e' ∷ []

abbrev pub upload_rating : List ℕ
upload_rating =
    b'u' ∷ b'p' ∷ b'l' ∷ b'o' ∷ b'a' ∷ b'd' ∷ b'_' ∷ b'r' ∷ b'a' ∷ b't' ∷ b'i' ∷ b'n' ∷ b'g' ∷ []
