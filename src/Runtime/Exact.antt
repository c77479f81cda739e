-- ===== src/Runtime/Exact.antt =====
-- internal/runtime/process/runtime.go: the table of processes is exact after any interleaving.
use hive_worker.Base.{
  ℕ, ◌+◌, ◌<◌, ◌≡◌, sym, ap, ◌∙◌, Text, Bool, true, false, none, some, List, [], ◌∷◌, lookup,
  insert, erase, text_eq, nat_eq, ok, contains, remove, arith, lookup-insert_self,
  lookup-insert_other, lookup-insert_cases, lookup-erase_other, lookup-erase_cases, contains-remove,
  lookup-erase, Option-cases, Bool-cases, inl, inr,
}
use hive_worker.Runtime.{RunningProcess, new_runtime, start, forget, stop, is_running}
use hive_worker.Runtime.Events.{System, Event, starts, ends, reaped, happen, run, nothing_runs}

-- Each entry of the table has its goroutine, each goroutine its entry, and each command that runs
-- its goroutine.
pub record IsExact (s : System) : Type 0 where
  pub entered :
      (id : Text) (p : RunningProcess)
      → lookup id s.runtime.processes ≡ some p
      → lookup p.cmd s.waiting ≡ some id
  pub awaited :
      (cmd : ℕ) (id : Text)
      → lookup cmd s.waiting ≡ some id
      → (p : RunningProcess) × (lookup id s.runtime.processes ≡ some p) × (p.cmd ≡ cmd)
  pub old : (cmd : ℕ) (id : Text) → lookup cmd s.waiting ≡ some id → cmd < s.next
  pub watched :
      (cmd : ℕ) → contains cmd s.alive ≡ true → (id : Text) × (lookup cmd s.waiting ≡ some id)

ends-IsExact : (cmd : ℕ) (s : System) → IsExact s → IsExact (happen (ends cmd) s)
unfolding happen
ends-IsExact cmd s x = record {
  entered = x.entered;
  awaited = x.awaited;
  old = x.old;
  watched = λ n h. x.watched n (ground (arith, contains-remove n cmd s.alive));
}

launched-IsExact :
    (id : Text) (now : ℕ) (s : System)
    → IsExact s
    → lookup id s.runtime.processes ≡ none
    → IsExact (record {
      runtime = record {
        processes = insert id (record { cmd = s.next; started_at = now }) s.runtime.processes;
      };
      waiting = insert s.next id s.waiting;
      alive = s.next ∷ s.alive;
      next = s.next + 1;
    })
launched-IsExact id now s x absent = record {
  entered = λ j p h. elim (lookup-insert_cases j id new s.runtime.processes h) [
    | inl (same, value) ↦
        ap (λ (r : RunningProcess). lookup r.cmd (insert s.next id s.waiting)) (sym value)
        ∙ lookup-insert_self s.next id s.waiting
        ∙ ap some (sym same)
    | inr (other, before) ↦
        let kept = x.entered j p before in
        lookup-insert_other p.cmd s.next id s.waiting
          (λ e. absurd (omega (arith, x.old p.cmd j kept, e)))
        ∙ kept
  ];
  awaited = λ cmd j h. elim (lookup-insert_cases cmd s.next id s.waiting h) [
    | inl (same, value) ↦ (
      new,
      ap (λ k. lookup k (insert id new s.runtime.processes)) (sym value)
          ∙ lookup-insert_self id new s.runtime.processes,
      sym same,
    )
    | inr (other, before) ↦
        let (p, there, e) = x.awaited cmd j before in
        (p, lookup-insert_other j id new s.runtime.processes (λ same. cc) ∙ there, e)
  ];
  old = λ cmd j h. elim (lookup-insert_cases cmd s.next id s.waiting h) [
    | inl (same, value) ↦ omega (arith, same)
    | inr (other, before) ↦ omega (arith, x.old cmd j before)
  ];
  watched = λ cmd h. elim (nat_eq.dec cmd s.next) [
    | yes same ↦ (
      id,
      ap (λ k. lookup k (insert s.next id s.waiting)) same ∙ lookup-insert_self s.next id s.waiting,
    )
    | no other ↦
        let (j, there) = x.watched cmd (ground arith) in
        (j, lookup-insert_other cmd s.next id s.waiting other ∙ there)
  ];
}
  where
    new : RunningProcess
    new = record { cmd = s.next; started_at = now }

starts-IsExact :
    (id : Text) (fails : Bool) (now : ℕ) (s : System)
    → IsExact s
    → IsExact (happen (starts id fails now) s)
unfolding happen start
starts-IsExact id fails now s x = elim (Option-cases (lookup id s.runtime.processes)) [
  | inr (p, there) ↦ rw (there, start) x
  | inl absent ↦
      rw (absent, start)
        (elim (Bool-cases fails) [
          | inl refused ↦ rw refused x
          | inr allowed ↦ rw allowed (launched-IsExact id now s x absent)
        ])
]

-- The goroutine of a command that has ended removes the entry of that command and no other one.
finished-IsExact :
    (cmd : ℕ) (id : Text) (s : System)
    → IsExact s
    → contains cmd s.alive ≡ false
    → lookup cmd s.waiting ≡ some id
    → IsExact (record s { runtime = forget id s.runtime; waiting = erase cmd s.waiting })
unfolding forget
finished-IsExact cmd id s x dead found = record {
  entered = λ j p h.
      let (other, before) = lookup-erase_cases j id s.runtime.processes h in
      let kept = x.entered j p before in
      lookup-erase_other p.cmd cmd s.waiting (λ e. absurd (other (cc))) ∙ kept;
  awaited = λ c j h.
      let (other, before) = lookup-erase_cases c cmd s.waiting h in
      let (p, there, e) = x.awaited c j before in
      let (q, there', e') = x.awaited cmd id found in
      (p, lookup-erase_other j id s.runtime.processes (λ same. absurd (other (cc))) ∙ there, e);
  old = λ c j h. x.old c j (lookup-erase_cases c cmd s.waiting h).1;
  watched = λ c h.
      let (j, there) = x.watched c h in
      (j, lookup-erase_other c cmd s.waiting (λ e. absurd (ground arith)) ∙ there);
}

reaped-IsExact : (cmd : ℕ) (s : System) → IsExact s → IsExact (happen (reaped cmd) s)
unfolding happen
reaped-IsExact cmd s x = elim (Bool-cases (contains cmd s.alive)) [
  | inl runs ↦ rw runs x
  | inr dead ↦ rw dead (elim (Option-cases (lookup cmd s.waiting)) [
    | inl gone ↦ rw gone x
    | inr (id, found) ↦ rw found (finished-IsExact cmd id s x dead found)
  ])
]

happen-IsExact : (e : Event) (s : System) → IsExact s → IsExact (happen e s)
happen-IsExact (starts id fails now) s x = starts-IsExact id fails now s x
happen-IsExact (ends cmd) s x = ends-IsExact cmd s x
happen-IsExact (reaped cmd) s x = reaped-IsExact cmd s x

nothing_runs-IsExact : IsExact nothing_runs
unfolding new_runtime lookup
nothing_runs-IsExact = record {
  entered = λ id p h. cc;
  awaited = λ cmd id h. cc;
  old = λ cmd id h. absurd (cc);
  watched = λ cmd h. cc;
}

pub run-IsExact : (es : List Event) (s : System) → IsExact s → IsExact (run es s)
unfolding run
run-IsExact [] s x = x
run-IsExact (e ∷ rest) s x = run-IsExact rest (happen e s) (happen-IsExact e s x)

-- After any steps from a worker that runs nothing, Stop of the cell of a command that runs kills this
-- command, so that no cell has two commands that run.
pub run-stop :
    (es : List Event) (cmd : ℕ)
    → contains cmd (run es nothing_runs).alive ≡ true
    → (id : Text) × (lookup cmd (run es nothing_runs).waiting ≡ some id)
      × (stop id (run es nothing_runs).runtime ≡ ok cmd)
      × (is_running id (run es nothing_runs).runtime ≡ true)
unfolding stop is_running
run-stop es cmd h =
    let x = run-IsExact es nothing_runs nothing_runs-IsExact in
    let (id, there) = x.watched cmd h in
    let (p, found, e) = x.awaited cmd id there in
    (id, there, rw (found, stop) (ap ok e), rw (found, is_running))

-- After any steps from a worker that runs nothing, if a command of a cell ends and its goroutine goes
-- on, then the cell is not running, and Start succeeds if the system does not refuse.
pub run-restart :
    (es : List Event) (cmd : ℕ) (id : Text) (next now : ℕ)
    → lookup cmd (run es nothing_runs).waiting ≡ some id
    → (is_running id (run (ends cmd ∷ reaped cmd ∷ []) (run es nothing_runs)).runtime ≡ false)
      × ((start id false next now
            (run (ends cmd ∷ reaped cmd ∷ []) (run es nothing_runs)).runtime).1
          ≡ ok tt)
unfolding run happen is_running start forget
run-restart es cmd id next now there =
    let s = run es nothing_runs in
    let dead : contains cmd (remove cmd s.alive) ≡ false =
      ground (arith, contains-remove cmd cmd s.alive) in
    let gone : lookup id (erase id s.runtime.processes) ≡ none =
      ground (arith, lookup-erase id id s.runtime.processes) in
    (rw (dead, there, happen) (rw (gone, is_running)), rw (dead, there, happen) (rw (gone, start)))
