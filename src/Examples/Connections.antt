-- ===== src/Examples/Connections.antt =====
-- The theorems on connections at concrete inputs.
use blacktemple_kn.Prelude.{
  ℕ, ◌*◌, ltb, true, false, if◌then◌else◌, Option, none, some, is_some, not, [], ◌∷◌, Text, text_eq,
  text_eq_refl, codes, pos, inr, ◌≡◌, refl, arith,
}
use blacktemple_kn.Supervisor.Policy.{Floats, RestartPolicy}
use blacktemple_kn.Supervisor.Interleaving.{delay_over, sees_exit}
use blacktemple_kn.Connection.Errors.{not_running}
use blacktemple_kn.Supervisor.Record.{new}
use blacktemple_kn.Profiles.State.{ParsedShare, Service, no_memory}
use blacktemple_kn.Profiles.Store.{Storage, Contents, missing, file}
use blacktemple_kn.Profiles.Transactions.{op_shell, op_import_resolved, operate_all}
use blacktemple_kn.Connection.Files.{Os, replace_file, restore_backup}
use blacktemple_kn.Connection.Generation.{ConnectionParams}
use blacktemple_kn.Connection.Service.{Connection, no_stage, Environment}
use blacktemple_kn.Connection.Control.{connect}
use blacktemple_kn.Connection.Restore.{IsFileSystem, restore_backup-replace_file}
use blacktemple_kn.Supervisor.Regions.{backoff_begin, on_child_exit}

-- The machine is what is stored; every call succeeds.
abbrev World : Type 0
World = Contents ConnectionParams

abbrev calm : Os World
calm = record {
  make_dir = λ p w. (w, none);
  open_file = λ p w. (w, none);
  write = λ p d w. (w, none);
  sync = λ p w. (w, none);
  close = λ p w. (w, none);
  remove = λ p w. (w, none);
  rename = λ a b w. (w, none);
  stat = λ p w. none;
}

abbrev no_params : ConnectionParams
no_params = record {
  flow = [];
  sni = [];
  host = [];
  path = [];
  service_name = [];
  mode = [];
  alpn = [];
  fingerprint = [];
  reality_public_key = [];
  short_id = [];
  spider_x = [];
  header_type = [];
  allow_insecure = false;
}

abbrev share : ParsedShare ConnectionParams
share = record {
  protocol = codes "VLESS";
  host = codes "example.org";
  port = pos 443;
  transport = codes "ws";
  security = codes "tls";
  remark = [];
  country_hint = [];
  stable_id = codes "s1";
  params = no_params;
  secret = codes "u1";
}

abbrev disk : Storage ConnectionParams World
disk = record { write = λ f w. (file f, none); read = λ w. w }

-- Multipliers that are whole numbers, and products that do not round.
abbrev whole : Floats
whole = record { F = ℕ; two = 2; below_one = λ m. ltb m 1; scale = λ d m. pos (d * m) }

abbrev environment : Environment World
environment = record {
  floats = whole;
  meanwhile = λ w. (w, delay_over 100 1 ∷ []);
  storage = disk;
  os = calm;
  validate = λ p w. none;
  ask = λ w. (w, 100, record { start_error = none; stop_error = none; identity = none });
  probe = none;
  generate = λ p id o h n. inr (codes "{}");
  config_path = codes "run/xray.json";
  listen_host = codes "127.0.0.1";
  listen_port = pos 11080;
}

abbrev empty_service : Service ConnectionParams
empty_service = record { memory = no_memory; has_store = true; persist_blocked = false }

abbrev prepared : World × Service ConnectionParams
prepared =
    operate_all disk
      (op_shell (codes "p1") (codes "b1") (codes "home") 5 6
        ∷ op_import_resolved (codes "p1") (share ∷ [])
        ∷ [])
      empty_service missing

abbrev policy : RestartPolicy ℕ
policy = record {
  max_restarts = pos 5;
  window = pos 60;
  initial_backoff = pos 1;
  max_backoff = pos 20;
  multiplier = 2;
}

abbrev idle : Connection ℕ
idle = record {
  profiles = prepared.1;
  sup = new policy;
  last_err = [];
  last_class = [];
  lkg_stage = no_stage;
}

connects : (connect environment idle prepared.0).2 ≡ none
unfolding connect operate_all text_eq new backoff_begin
connects = refl

-- Every child exits as soon as it has started.
abbrev crashing : Environment World
crashing = record environment { meanwhile = λ w. (w, sees_exit 100 1 none ∷ []) }

crash_is_seen : (connect crashing idle prepared.0).2 ≡ some not_running
unfolding connect operate_all text_eq on_child_exit new
crash_is_seen = refl

-- The machine is what stands at each path.
abbrev Disk : Type 0
Disk = Text → Option Text

abbrev moved : Text → Text → Disk → Option Text → Disk × Option Text
moved a b w none = (w, some (codes "no such file"))
moved a b w (some t) =
    (λ c. if text_eq b c then some t else if text_eq a c then none else w c, none)

abbrev files : Os Disk
files = record {
  make_dir = λ p w. (w, none);
  open_file = λ p w. (w, none);
  write = λ p d w. (λ c. if text_eq p c then some d else w c, none);
  sync = λ p w. (w, none);
  close = λ p w. (w, none);
  remove = λ p w. (λ c. if text_eq p c then none else w c, none);
  rename = λ a b w. moved a b w (w a);
  stat = λ p w. if is_some (w p) then none else some (codes "no such file");
}

abbrev content : Text → Disk → Option Text
content p w = w p

moved-content :
    (a b : Text) (w : Disk) (o : Option Text)
    → (moved a b w o).1 ≡ none
    → content b (moved a b w o).0 ≡ o
moved-content a b w none h = ground (arith, h)
moved-content a b w (some t) h = rw (text_eq_refl b) refl

moved-others :
    (a b c : Text) (w : Disk) (o : Option Text)
    → text_eq a c ≡ false
    → text_eq b c ≡ false
    → content c (moved a b w o).0 ≡ content c w
moved-others a b c w none h g = refl
moved-others a b c w (some t) h g = rw (g, h) refl

stats :
    (o : Option Text)
    → is_some (if is_some o then none else some (codes "no such file")) ≡ not (is_some o)
stats none = refl
stats (some t) = refl

files-IsFileSystem : IsFileSystem files content
files-IsFileSystem = record {
  stats = λ p w. stats (w p);
  renames = λ a b w h. moved-content a b w (w a) h;
  rename_others = λ a b c w h g. moved-others a b c w (w a) h g;
  remove_others = λ a c w h. rw h refl;
}

abbrev start : Disk
start p =
    if text_eq p (codes "x.json")
    then some (codes "old")
    else if text_eq p (codes "x.new.json")
    then some (codes "new")
    else none

restore_backup-replace_file_example :
    (content (codes "x.json") (replace_file files (codes "x.new.json") (codes "x.json") start).0
      ≡ some (codes "new"))
    × (content
          (codes "x.json")
          (restore_backup files
            (codes "x.json")
            (replace_file files (codes "x.new.json") (codes "x.json") start).0).0
        ≡ some (codes "old"))
unfolding text_eq replace_file restore_backup
restore_backup-replace_file_example =
    restore_backup-replace_file files content files-IsFileSystem (codes "x.new.json")
      (codes "x.json") (codes "old") (codes "new") start refl refl refl refl refl refl
