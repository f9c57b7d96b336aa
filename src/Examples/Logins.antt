-- ===== src/Examples/Logins.antt =====
-- The theorems of the session store at concrete inputs.
use blacktemple_kn.Prelude.{none, List, [], ◌∷◌, pos, codes, length, inr, ◌≡◌, refl, text_eq}
use blacktemple_kn.Auth.Sessions.{
  SessionStore, new_session_store, lookup, revoke, Operation, creates, looks_up, operate_all,
}
use blacktemple_kn.Auth.Bound.{Inv, sessions_bounded}
use blacktemple_kn.Auth.Lifetime.{revoked_stays_out}

abbrev logins : List Operation
logins =
    creates 1 (inr (codes "a"))
    ∷ creates 2 (inr (codes "b"))
    ∷ creates 3 (inr (codes "c"))
    ∷ looks_up 4 (codes "b")
    ∷ []

abbrev small : SessionStore
small = new_session_store (pos 60) (pos 2)

sessions_bounded_example : Inv (operate_all logins small)
sessions_bounded_example = sessions_bounded (pos 60) (pos 2) logins (refl, (refl, (refl, (tt, tt))))

two_left : length (operate_all logins small).items ≡ 2
unfolding operate_all text_eq new_session_store
two_left = refl

revoked_stays_out_example :
    (lookup 9 (codes "b") (
      operate_all
        (creates 5 (inr (codes "d")) ∷ [])
        (revoke (codes "b") (operate_all logins small)))).1
    ≡ none
unfolding text_eq
revoked_stays_out_example =
    revoked_stays_out (codes "b") (operate_all logins small) (creates 5 (inr (codes "d")) ∷ []) 9
      refl (refl, tt)
