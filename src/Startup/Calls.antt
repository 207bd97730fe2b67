-- ===== src/Startup/Calls.antt =====
-- Lists of calls, made up to the first one that returns an error, and the stages of a start as such
-- lists.
use mathlib.Core.List.{append-nil, append_assoc}
use namespace_lister.Base.{
  ◌≡◌, refl, sym, ap, ◌∙◌, String, Bool, true, false, none, some, List, [], ◌∷◌, ◌++◌, map, ◌⊎◌,
  inl, inr, if◌then◌else◌, Option-cases,
}
use namespace_lister.Startup.{
  Action, StartError, Outside, Progress, Stage, ◌then_do◌, perform, note,
}

-- A call with what is made of its error, or one that returns none.
pub data Call : Type 0 where
  checked : (String → StartError) → Action → Call
  unchecked : Action → Call

abbrev pub act : Call → Action
act (checked wrap a) = a
act (unchecked a) = a

abbrev pub actions : List Call → List Action
actions = map act

module _ (out : Outside) where
  -- Makes the calls up to the first one that returns an error.
  unfoldable pub make : List Call → Stage
  make [] t = (t, none)
  make (unchecked a ∷ cc) t = note out a t then_do make cc
  make (checked wrap a ∷ cc) t = perform out wrap a t then_do make cc

  unfoldable pub Makes : Stage → List Call → Type 0
  Makes f cc = (t : List Action) → f t ≡ make cc t

  then_do_assoc :
      (p : Progress) (f g : Stage) → ((p then_do f) then_do g) ≡ (p then_do (λ t. f t then_do g))
  unfolding ◌then_do◌
  then_do_assoc (t, none) f g = refl
  then_do_assoc (t, some e) f g = refl

  pub then_do_ext :
      (p : Progress) (f g : Stage) → ((t : List Action) → f t ≡ g t) → (p then_do f) ≡ (p then_do g)
  unfolding ◌then_do◌
  then_do_ext (t, none) f g h = h t
  then_do_ext (t, some e) f g h = refl

  then_do_none : (p : Progress) → (p then_do (λ t. (t, none))) ≡ p
  unfolding ◌then_do◌
  then_do_none (t, none) = refl
  then_do_none (t, some e) = refl

  make-append :
      (xs ys : List Call) (t : List Action) → make (xs ++ ys) t ≡ (make xs t then_do make ys)
  unfolding make note ◌then_do◌
  make-append [] ys t = refl
  make-append (unchecked a ∷ xs) ys t = make-append xs ys _
  make-append (checked w a ∷ xs) ys t =
      then_do_ext (perform out w a t) _ _ (make-append xs ys)
      ∙ sym (then_do_assoc (perform out w a t) (make xs) (make ys))

  -- One stage after another.
  pub Makes-append :
      (f g : Stage) (xs ys : List Call)
      → Makes f xs
      → Makes g ys
      → Makes (λ t. f t then_do g) (xs ++ ys)
  unfolding Makes
  Makes-append f g xs ys h k t =
      ap (λ p. p then_do g) (h t)
      ∙ then_do_ext (make xs t) g (make ys) k
      ∙ sym (make-append xs ys t)

  pub one-Makes :
      (wrap : String → StartError) (a : Action) → Makes (perform out wrap a) (checked wrap a ∷ [])
  unfolding Makes make
  one-Makes wrap a t = sym (then_do_none (perform out wrap a t))

  pub if-Makes :
      (b : Bool) (f : Stage) (cc : List Call)
      → Makes f cc
      → Makes (λ t. if b then f t else (t, none)) (if b then cc else [])
  unfolding Makes make
  if-Makes true f cc h t = h t
  if-Makes false f cc h t = refl

  pub note-Makes :
      (a : Action) (g : Stage) (cc : List Call)
      → Makes g cc
      → Makes (λ t. note out a t then_do g) (unchecked a ∷ cc)
  unfolding Makes make note ◌then_do◌
  note-Makes a g cc h t = h (t ++ a ∷ [])

  pub checked-Makes :
      (wrap : String → StartError) (a : Action) (g : Stage) (cc : List Call)
      → Makes g cc
      → Makes (λ t. perform out wrap a t then_do g) (checked wrap a ∷ cc)
  unfolding Makes make
  checked-Makes wrap a g cc h t = then_do_ext (perform out wrap a t) g (make cc) h

  -- None of the calls has an error, made one after the other.
  abbrev pub NoneFails : List Call → List Action → Type 0
  NoneFails [] t = Unit
  NoneFails (unchecked a ∷ cc) t = NoneFails cc (t ++ a ∷ [])
  NoneFails (checked wrap a ∷ cc) t = (out.answer t a ≡ none) × NoneFails cc (t ++ a ∷ [])

  -- What is left of a run that made the calls: all of them where none fails, and otherwise those up to
  -- the first that fails, with its error.
  abbrev pub StopsAtFirstError : List Call → List Action → Progress → Type 0
  StopsAtFirstError cc t p =
      (NoneFails cc t × (p ≡ (t ++ actions cc, none)))
      ⊎ ((done : List Call) × (wrap : String → StartError) × (a : Action) × (rest : List Call)
          × (m : String) × (cc ≡ done ++ checked wrap a ∷ rest)
          × NoneFails done t
          × (out.answer (t ++ actions done) a ≡ some m)
          × (p ≡ ((t ++ actions done) ++ a ∷ [], some (wrap m))))

  pub make-StopsAtFirstError :
      (cc : List Call) (t : List Action) → StopsAtFirstError cc t (make cc t)
  unfolding make perform note ◌then_do◌
  make-StopsAtFirstError [] t = inl (tt, ap (λ l. (l, none)) (sym (append-nil t)))
  make-StopsAtFirstError (unchecked a ∷ cc) t = elim (make-StopsAtFirstError cc (t ++ a ∷ [])) [
    | inl (s, p) ↦ inl (s, p ∙ ap (λ l. (l, none)) (append_assoc t (a ∷ []) (actions cc)))
    | inr (done, wrap, b, rest, m, p, s, q, r) ↦ inr (
      unchecked a ∷ done,
      wrap,
      b,
      rest,
      m,
      ap (λ l. unchecked a ∷ l) p,
      s,
      rw (sym (append_assoc t (a ∷ []) (actions done))) q,
      r ∙ ap (λ l. (l ++ b ∷ [], some (wrap m))) (append_assoc t (a ∷ []) (actions done)),
    )
  ]
  make-StopsAtFirstError (checked w a ∷ cc) t = elim (Option-cases (out.answer t a)) [
    | inr (m, e) ↦ inr ([], w, a, cc, m, refl, tt, rw append-nil e, rw (e, append-nil, ◌then_do◌))
    | inl e ↦ elim (make-StopsAtFirstError cc (t ++ a ∷ [])) [
      | inl (s, p) ↦ inl (
        (e, s),
        rw (e, ◌then_do◌) (p ∙ ap (λ l. (l, none)) (append_assoc t (a ∷ []) (actions cc))),
      )
      | inr (done, wrap, b, rest, m, p, s, q, r) ↦ inr (
        checked w a ∷ done,
        wrap,
        b,
        rest,
        m,
        ap (λ l. checked w a ∷ l) p,
        (e, s),
        rw (sym (append_assoc t (a ∷ []) (actions done))) q,
        rw (e, ◌then_do◌)
            (r ∙ ap (λ l. (l ++ b ∷ [], some (wrap m))) (append_assoc t (a ∷ []) (actions done))),
      )
    ]
  ]
