-- ===== src/Scheduler/Exclusion.antt =====
-- At most one run of `synch` at a time, whoever calls `Synch`.
use namespace_lister.Base.{
  ℕ, ◌≡◌, ◌≢◌, ◌↔◌, ◌∙◌, ◌⊎◌, inl, inr, refl, sym, true, false, arith, nat_eq,
}
use namespace_lister.Scheduler.{
  request, receive, enter, leave, running, idle, busy, State, start, Step, cancel, event, tick,
  tick_stop, take, work, refused, worked, work_stop, call, call_refused, called, Reach, here, next,
}

-- Who is inside `synch`, and that the flag `synchronizing` says whether somebody is.
pub record IsExclusive (s : State) : Type 0 where
  pub free : s.shared.synchronizing ≡ false → (s.worker ≢ running) × ((i : ℕ) → s.callers i ≡ idle)
  pub taken :
      s.shared.synchronizing ≡ true → (s.worker ≡ running) ⊎ ((i : ℕ) × (s.callers i ≡ busy))
  pub alone : s.worker ≡ running → (i : ℕ) → s.callers i ≡ idle
  pub single : (i j : ℕ) → s.callers i ≡ busy → s.callers j ≡ busy → i ≡ j

start-IsExclusive : IsExclusive start
unfolding start
start-IsExclusive = record {
  free = λ e. (cc, λ i. refl);
  taken = cc;
  alone = cc;
  single = λ i j. cc;
}

-- A step that neither starts nor ends a run.
keep :
    {s t : State}
    → IsExclusive s
    → t.shared.synchronizing ≡ s.shared.synchronizing
    → ((i : ℕ) → t.callers i ≡ s.callers i)
    → (t.worker ≡ running) ↔ (s.worker ≡ running)
    → IsExclusive t
keep x flag same (to, from) = record {
  free =
      λ e. let (away, quiet) = x.free (sym flag ∙ e) in (λ r. away (to r), λ i. same i ∙ quiet i);
  taken = λ e. elim (x.taken (sym flag ∙ e)) [
    | inl r ↦ inl (from r)
    | inr (i, b) ↦ inr (i, same i ∙ b)
  ];
  alone = λ r i. same i ∙ x.alone (to r) i;
  single = λ i j p q. x.single i j (sym (same i) ∙ p) (sym (same j) ∙ q);
}

Step-IsExclusive : {s t : State} → Step s t → IsExclusive s → IsExclusive t
unfolding request receive enter leave
Step-IsExclusive cancel x = keep x refl (λ i. refl) (λ r. r, λ r. r)
Step-IsExclusive event x = keep x (ground arith) (λ i. refl) (λ r. r, λ r. r)
Step-IsExclusive (tick h) x = keep x (ground arith) (λ i. refl) (λ r. r, λ r. r)
Step-IsExclusive (tick_stop h) x = keep x refl (λ i. refl) (λ r. r, λ r. r)
Step-IsExclusive (take h k) x = keep x refl (λ i. refl) (λ r. absurd (cc), λ r. cc)
Step-IsExclusive (refused h k) x = keep x refl (λ i. refl) (λ r. absurd (cc), λ r. cc)
Step-IsExclusive (work_stop h k) x = keep x refl (λ i. refl) (λ r. absurd (cc), λ r. cc)
Step-IsExclusive (call_refused i h k) x = x
Step-IsExclusive (work h k) x = record {
  free = λ e. absurd (ground arith);
  taken = λ e. inl refl;
  alone = λ r. (x.free (ground arith)).1;
  single = x.single;
}
Step-IsExclusive (worked err k h) x = record {
  free = λ e. (cc, x.alone h);
  taken = cc;
  alone = cc;
  single = x.single;
}
Step-IsExclusive (call i h k) x =
    let (away, quiet) = x.free (ground arith) in
    record {
      free = λ e. absurd (ground arith);
      taken = λ e. inr (i, ground arith);
      alone = λ r. absurd (away r);
      single = λ j l p q. ground (arith, quiet j, quiet l);
    }
Step-IsExclusive (called i h) x = record {
  free = λ e. (λ r. cc (x.alone r i), λ j. ground (arith, x.single i j h));
  taken = cc;
  alone = λ r. absurd (cc (x.alone r i));
  single = λ j l p q. ground (arith, x.single j l);
}

-- In every state that the goroutines can reach, at most one caller of `Synch` is inside `synch`, and
-- the flag `synchronizing` is set exactly while one is.
pub Reach-IsExclusive : {s : State} → Reach s → IsExclusive s
Reach-IsExclusive here = start-IsExclusive
Reach-IsExclusive (next r st) = Step-IsExclusive st (Reach-IsExclusive r)
