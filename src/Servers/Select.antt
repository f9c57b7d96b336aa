-- ===== src/Servers/Select.antt =====
-- src/internal/servers/select.go: the choice of a server.
use blacktemple_kn.Prelude.{
  ℕ, suc, ◌%◌, if◌then◌else◌, none, some, List, [], ◌∷◌, length, get_elem?, ℤ, Text, text_eq,
  is_empty, codes,
}
use blacktemple_kn.Strings.{to_lower, trim_space}

pub data Mode : Type 0 where
  auto manual failover rotate : Mode

pub record Server : Type 0 where
  pub id : Text
  pub profile_id : Text
  pub host : Text
  pub port : ℤ
  pub transport : Text
  pub security : Text
  pub country_id : Text
  pub remark : Text

-- `panics` is an index out of range.
pub data Choice : Type 0 where
  chosen : Server → Choice
  err_not_found err_empty panics : Choice

unfoldable pub mode_named : Text → Mode
mode_named t =
    if text_eq t (codes "manual")
    then manual
    else if text_eq t (codes "failover")
    then failover
    else if text_eq t (codes "rotate")
    then rotate
    else auto

unfoldable pub parse_mode : Text → Mode
unfolding mode_named to_lower trim_space
parse_mode t = mode_named (to_lower (trim_space t))

unfoldable pub by_id : List Server → Text → Choice
by_id [] wanted = err_not_found
by_id (s ∷ ss) wanted = if text_eq s.id wanted then chosen s else by_id ss wanted

-- `list[i]`
unfoldable pub at : List Server → ℕ → Choice
at list i = elim (get_elem? list i) [ none ↦ panics | some s ↦ chosen s ]

-- The loop of `nextAfter` from the position `i` on; `rest` is the list from there.
unfoldable pub next_from : List Server → Text → ℕ → List Server → Choice
unfolding at
next_from list previous i [] = at list 0
next_from list previous i (s ∷ rest) =
    if text_eq s.id previous
    then at list (suc i % length list)
    else next_from list previous (suc i) rest

unfoldable pub next_after : List Server → Text → Choice
unfolding at next_from
next_after list previous = if is_empty previous then at list 0 else next_from list previous 0 list

-- AUTO: the previous server, or the first one.
unfoldable pub or_first : List Server → Choice → Choice
unfolding at
or_first list (chosen s) = chosen s
or_first list _ = at list 0

unfoldable pub select_in : Mode → List Server → Text → Text → Choice
unfolding by_id next_after or_first at
select_in manual list manual_id previous =
    if is_empty manual_id then err_not_found else by_id list manual_id
select_in failover list manual_id previous = next_after list previous
select_in rotate list manual_id previous = next_after list previous
select_in auto list manual_id previous =
    if is_empty previous then at list 0 else or_first list (by_id list previous)

unfoldable pub select : Mode → List Server → Text → Text → Choice
unfolding select_in
select mode [] manual_id previous = err_empty
select mode (s ∷ ss) manual_id previous = select_in mode (s ∷ ss) manual_id previous
