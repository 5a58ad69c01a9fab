-- ===== src/Tools/CodeExec/Sample.antt =====
-- A daemon for tests that knows its containers by their names (runtime/src/tools/code_exec.rs).
use text.Mathlib.Text.{◌==◌}
use mathlib.Core.Path.{subst}
use xola.Base.{
  ◌≡◌, refl, ap, sym, ◌∙◌, Bool, true, false, not, ◌&&◌, ◌||◌, Option, some, String, [], ◌∷◌, Exit,
  ok, err, ℤ, Duration,
}
use xola.Tools.Error.{ToolError}
use xola.Tools.CodeExec.{Docker, std_out, stream_error, std_err}
use xola.Tools.CodeExec.Cleanup.{Bookkeeping}
use xola.Tools.SampleJson.{Sample}

abbrev pub Containers : Type 0
Containers = String → Bool

abbrev pub no_containers : Containers
no_containers name = false

abbrev pub create : Bool → String → Containers → Exit String String × Containers
create true name w = (err "Conflict", w)
create false name w = (ok name, λ j. (name == j) || w j)

abbrev pub in_time :
    Duration
    → (Containers → Exit ToolError Sample × Containers)
    → Containers
    → Option (Exit ToolError Sample) × Containers
in_time d future w = (some (future w).0, (future w).1)

pub in_time-some :
    (d : Duration) (future : Containers → Exit ToolError Sample × Containers) (w w' : Containers)
    (r : Exit ToolError Sample)
    → in_time d future w ≡ (some r, w')
    → future w ≡ (r, w')
in_time-some d future w w' r e = cc

abbrev pub daemon : ℤ → Docker Sample Containers
daemon exit_code = record {
  connect = λ w. (ok tt, w);
  create_container = λ name body w. create (w name) name w;
  start_container = λ id w. (ok tt, w);
  logs = λ id w. (std_out "hello" ∷ std_err "oops" ∷ stream_error "lost" ∷ std_out "!" ∷ [], w);
  inspect_container = λ id w. (ok (some exit_code), w);
  remove_container = λ id w. (ok tt, λ j. not (id == j) && w j);
  new_v4 = λ w. ("0", w);
  timeout = in_time;
  timeout_some = in_time-some;
}

create-ok :
    (taken : Bool) (name id : String) (w w' : Containers)
    → w name ≡ taken
    → create taken name w ≡ (ok id, w')
    → (w id ≡ false) × ((j : String) → w' j ≡ ((id == j) || w j))
create-ok true name id w w' h e = cc
create-ok false name id w w' h e =
    let same : name ≡ id = cc in
    let after = ap (λ (r : Exit String String × Containers). r.1) e in
    (
      subst (λ n. w n ≡ false) same h,
      λ j. ap (λ (u : Containers). u j) (sym after) ∙ ap (λ n. (n == j) || w j) same,
    )

create-err :
    (taken : Bool) (name x : String) (w w' : Containers)
    → create taken name w ≡ (err x, w')
    → (j : String) → w' j ≡ w j
create-err true name x w w' e j = ap (λ (r : Exit String String × Containers). r.1 j) (sym e)
create-err false name x w w' e j = cc

pub daemon-Bookkeeping : (exit_code : ℤ) → Bookkeeping (daemon exit_code) (λ w. w)
daemon-Bookkeeping exit_code = record {
  connects = λ w j. refl;
  names = λ w j. refl;
  creates = λ name body w w' id e. create-ok (w name) name id w w' refl e;
  creates_none = λ name body w w' x e. create-err (w name) name x w w' e;
  starts = λ id w j. refl;
  streams = λ id w j. refl;
  inspects = λ id w j. refl;
  removes = λ id w j. refl;
  drops = λ d future w j h. h w;
}
