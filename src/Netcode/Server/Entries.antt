-- ===== src/Netcode/Server/Entries.antt =====
-- `find_or_add_connect_token_entry` of renetcode/src/server.rs.
use renet.Base.{
  ℕ, suc, Bool, true, false, Option, none, some, List, [], ◌∷◌, ◌&&◌, not, if◌then◌else◌, ltb, set,
}
use renet.Netcode.Address.{same_addr, same_bytes}
use renet.Netcode.Server.{ConnectTokenEntry, NetcodeServer}

-- The variables of the loop. `min` is `None` for `Duration::MAX`, which is above every time.
pub record Search : Type 0 where
  pub min : Option ℕ
  pub oldest_entry : ℕ
  pub empty_entry : Bool
  pub matching_entry : Option ConnectTokenEntry

abbrev is_below : ℕ → Option ℕ → Bool
is_below time none = true
is_below time (some min) = ltb time min

abbrev pub matched : ConnectTokenEntry → ConnectTokenEntry → Search → Search
matched new_entry e s =
    if same_bytes e.mac new_entry.mac then record s { matching_entry = some e } else s

-- The entry at the index `i`.
unfoldable pub look : ConnectTokenEntry → ℕ → Option ConnectTokenEntry → Search → Search
look new_entry i (some e) s =
    let s' = matched new_entry e s in
    if not s'.empty_entry && is_below e.time s'.min
    then record s' { oldest_entry = i; min = some e.time }
    else s'
look new_entry i none s =
    if not s.empty_entry then record s { empty_entry = true; oldest_entry = i } else s

unfoldable pub look_all : ConnectTokenEntry → ℕ → List (Option ConnectTokenEntry) → Search → Search
look_all new_entry i [] s = s
look_all new_entry i (entry ∷ entries) s =
    look_all new_entry (suc i) entries (look new_entry i entry s)

abbrev pub start : Search
start = record { min = none; oldest_entry = 0; empty_entry = false; matching_entry = none }

abbrev pub add_or_compare :
    NetcodeServer → ConnectTokenEntry → Search → Option ConnectTokenEntry → NetcodeServer × Bool
add_or_compare server new_entry s (some entry) = (server, same_addr entry.address new_entry.address)
add_or_compare server new_entry s none = (
  record server {
    connect_token_entries = set server.connect_token_entries s.oldest_entry (some new_entry);
  },
  true,
)

unfoldable pub find_or_add_connect_token_entry :
    NetcodeServer → ConnectTokenEntry → NetcodeServer × Bool
find_or_add_connect_token_entry server new_entry =
    let s = look_all new_entry 0 server.connect_token_entries start in
    add_or_compare server new_entry s s.matching_entry
