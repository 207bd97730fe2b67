-- ===== src/System/Courses.antt =====
-- Moves of one kind only: those of a run of `synch`, and those that the goroutines of `Start` make by
-- themselves while nothing changes around them.
use namespace_lister.Base.{Bool, true, false, ◌≡◌, refl, ◌∙◌}
use namespace_lister.System.{
  Machine, Move, change, deliver, tick, elsewhere, take, begin, work, call, list_failed, list_done,
  interrupted, round, restocked, Moves, cancel, tick_stop, refused, work_stop, call_refused,
}

-- The list of a run, a round of it, or its end without an error.
abbrev pub is_of_run : (m n : Machine) → Move m n → Bool
is_of_run m n (list_done e) = true
is_of_run m n (round ns nn c e w) = true
is_of_run m n (restocked c e f) = true
is_of_run m n (change r) = false
is_of_run m n (deliver k e) = false
is_of_run m n (tick e) = false
is_of_run m n (elsewhere e) = false
is_of_run m n (begin e) = false
is_of_run m n (list_failed e f g) = false
is_of_run m n (interrupted e ns nn c f g) = false

-- The same, or the timer's request, or the worker that takes a request or starts its run for it.
abbrev pub is_unaided : (m n : Machine) → Move m n → Bool
is_unaided m n (list_done e) = true
is_unaided m n (round ns nn c e w) = true
is_unaided m n (restocked c e f) = true
is_unaided m n (tick e) = true
is_unaided m n (elsewhere (take h k)) = true
is_unaided m n (elsewhere cancel) = false
is_unaided m n (elsewhere (tick_stop h)) = false
is_unaided m n (elsewhere (refused h k)) = false
is_unaided m n (elsewhere (work_stop h k)) = false
is_unaided m n (elsewhere (call_refused i h k)) = false
is_unaided m n (begin (work h k)) = true
is_unaided m n (begin (call i h k)) = false
is_unaided m n (change r) = false
is_unaided m n (deliver k e) = false
is_unaided m n (list_failed e f g) = false
is_unaided m n (interrupted e ns nn c f g) = false

-- Any number of moves, each of the kind.
pub data Only (kind : (m n : Machine) → Move m n → Bool) : Machine → Machine → Type 0 where
  stay : {m : Machine} → Only kind m m
  move : {m n o : Machine} (e : Move m n) → kind m n e ≡ true → Only kind n o → Only kind m o

pub Only-snoc :
    {kind : (m n : Machine) → Move m n → Bool} {m n o : Machine}
    → Only kind m n
    → (e : Move n o) → kind n o e ≡ true
    → Only kind m o
Only-snoc stay f k = move f k stay
Only-snoc (move e h r) f k = move e h (Only-snoc r f k)

pub Only-append :
    {kind : (m n : Machine) → Move m n → Bool} {m n o : Machine}
    → Only kind m n
    → Only kind n o
    → Only kind m o
Only-append stay k = k
Only-append (move e h r) k = move e h (Only-append r k)

pub Only-Moves :
    {kind : (m n : Machine) → Move m n → Bool} {m n : Machine} → Only kind m n → Moves m n
Only-Moves stay = Moves.stay
Only-Moves (move e h r) = Moves.move e (Only-Moves r)

of_run-unaided : {m n : Machine} (e : Move m n) → is_of_run m n e ≡ true → is_unaided m n e ≡ true
of_run-unaided (list_done e) h = refl
of_run-unaided (round ns nn c e w) h = refl
of_run-unaided (restocked c e f) h = refl
of_run-unaided (change r) h = absurd (cc)
of_run-unaided (deliver k e) h = absurd (cc)
of_run-unaided (tick e) h = absurd (cc)
of_run-unaided (elsewhere e) h = absurd (cc)
of_run-unaided (begin e) h = absurd (cc)
of_run-unaided (list_failed e f g) h = absurd (cc)
of_run-unaided (interrupted e ns nn c f g) h = absurd (cc)

pub Only-unaided : {m n : Machine} → Only is_of_run m n → Only is_unaided m n
Only-unaided stay = stay
Only-unaided (move e h r) = move e (of_run-unaided e h) (Only-unaided r)

-- What stays as it is.
abbrev pub Keeps : Machine → Machine → Type 0
Keeps m n =
    (n.resources.allowed_subjects ≡ m.resources.allowed_subjects) × (n.undelivered ≡ m.undelivered)

unaided-Keeps : {m n : Machine} (e : Move m n) → is_unaided m n e ≡ true → Keeps m n
unaided-Keeps (list_done e) h = (refl, refl)
unaided-Keeps (round ns nn c e w) h = (refl, refl)
unaided-Keeps (restocked c e f) h = (refl, refl)
unaided-Keeps (tick e) h = (refl, refl)
unaided-Keeps (elsewhere e) h = (refl, refl)
unaided-Keeps (begin e) h = (refl, refl)
unaided-Keeps (change r) h = absurd (cc)
unaided-Keeps (deliver k e) h = absurd (cc)
unaided-Keeps (list_failed e f g) h = absurd (cc)
unaided-Keeps (interrupted e ns nn c f g) h = absurd (cc)

pub Only-Keeps : {m n : Machine} → Only is_unaided m n → Keeps m n
Only-Keeps stay = (refl, refl)
Only-Keeps (move e h r) =
    let (allowed, late) = unaided-Keeps e h in
    let (allowed', late') = Only-Keeps r in (allowed' ∙ allowed, late' ∙ late)
