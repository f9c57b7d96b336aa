-- ===== src/Examples/Stored.antt =====
-- The theorems on the profile service at concrete inputs.
use blacktemple_kn.Prelude.{
  ltb, Bool, true, false, Option, none, some, List, [], ◌∷◌, length, Text, codes, inr, ◌≡◌, refl,
  pos, arith, text_eq,
}
use blacktemple_kn.Profiles.State.{ParsedShare, Memory, Service, no_memory, find_entry}
use blacktemple_kn.Profiles.Store.{
  Storage, StoreFile, Contents, missing, file, encode_store, load_contents, new_service,
}
use blacktemple_kn.Profiles.Service.{Error, persist_failed}
use blacktemple_kn.Profiles.Transactions.{
  Operation, op_shell, op_import_resolved, op_commit_good, operate, operate_all,
}
use blacktemple_kn.Profiles.Invariant.{IsMemory}
use blacktemple_kn.Profiles.Loading.{Loads, load_contents-Loads}
use blacktemple_kn.Profiles.Roundtrip.{load_contents-encode}
use blacktemple_kn.Profiles.Durable.{IsAtomic, operate_all-new_service, operate_failed-same}

-- The machine is what is stored, and a file of more than one profile does not fit.
abbrev wrote : Bool → StoreFile Text → Contents Text → Contents Text × Option Text
wrote true f w = (w, some (codes "no space"))
wrote false f w = (file f, none)

abbrev disk : Storage Text (Contents Text)
disk = record { write = λ f w. wrote (ltb 1 (length f.profiles)) f w; read = λ w. w }

disk-IsAtomic : IsAtomic disk
disk-IsAtomic = record {
  kept = λ f w e h. kept (ltb 1 (length f.profiles)) f w e h;
  stored = λ f w h. stored (ltb 1 (length f.profiles)) f w h;
}
  where
    kept :
        (b : Bool) (f : StoreFile Text) (w : Contents Text) (e : Text)
        → (wrote b f w).1 ≡ some e
        → (wrote b f w).0 ≡ w
    kept true f w e h = refl
    kept false f w e h = ground (arith, h)

    stored :
        (b : Bool) (f : StoreFile Text) (w : Contents Text)
        → (wrote b f w).1 ≡ none
        → (wrote b f w).0 ≡ file f
    stored true f w h = ground (arith, h)
    stored false f w h = refl

abbrev share : ParsedShare Text
share = record {
  protocol = codes "vless";
  host = codes "example.org";
  port = pos 443;
  transport = codes "ws";
  security = codes "tls";
  remark = [];
  country_hint = codes "de";
  stable_id = codes "s1";
  params = [];
  secret = codes "u1";
}

-- The second profile does not fit.
abbrev session : List (Operation Text)
session =
    op_shell (codes "p1") (codes "b1") (codes "home") 5 6
    ∷ op_import_resolved (codes "p1") (share ∷ [])
    ∷ op_commit_good (codes "p1") 7
    ∷ op_shell (codes "p2") (codes "b2") (codes "work") 8 9
    ∷ []

abbrev fresh : Service Text
fresh = record { memory = no_memory; has_store = true; persist_blocked = false }

operate_all-new_service_example :
    new_service disk true (operate_all disk session (new_service disk true missing) missing).0
    ≡ (operate_all disk session (new_service disk true missing) missing).1
unfolding new_service operate text_eq
operate_all-new_service_example =
    operate_all-new_service disk disk-IsAtomic session missing refl
      ((refl, refl), (tt, (tt, ((refl, refl), tt))))

abbrev after_one : Contents Text × Service Text × Option Error
after_one = operate disk (op_shell (codes "p1") (codes "b1") (codes "home") 5 6) fresh missing

operate_failed-same_example :
    ((operate disk
        (op_shell (codes "p2") (codes "b2") (codes "work") 8 9)
        after_one.1
        after_one.0).1
      ≡ after_one.1)
    × (disk.read
          (operate disk
            (op_shell (codes "p2") (codes "b2") (codes "work") 8 9)
            after_one.1
            after_one.0).0
        ≡ disk.read after_one.0)
unfolding find_entry operate text_eq
operate_failed-same_example =
    operate_failed-same disk disk-IsAtomic (op_shell (codes "p2") (codes "b2") (codes "work") 8 9)
      after_one.1 after_one.0 (persist_failed (codes "no space")) (refl, refl) refl

abbrev one : Memory Text
one = after_one.1.memory

load_contents-Loads_example : Loads (load_contents after_one.0)
load_contents-Loads_example = load_contents-Loads after_one.0

one-IsMemory : IsMemory one
unfolding load_contents operate text_eq
one-IsMemory = load_contents-Loads after_one.0

load_contents-encode_example : load_contents (file (encode_store one)) ≡ inr one
load_contents-encode_example = load_contents-encode one one-IsMemory
