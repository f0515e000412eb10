-- ===== src/Stack/Order.antt =====
-- The array of stack.c is a last-in-first-out stack of at most four users.
use bare_metal_architect.Prelude.{
  ℕ, ◌+◌, ◌-◌, ◌<◌, ◌≡◌, refl, sym, ap, ◌∙◌, inl, inr, Bool, true, false, ◌&&◌, Option, none, some,
  List, [], ◌∷◌, ◌++◌, arith, ltb, ◌==◌, if◌then◌else◌, Bool-cases, length, get_elem?, set,
  replicate, take, length-append, ℤ, pos, Outcome, done, exits, ◌>>=◌,
}
use bare_metal_architect.Arrays.{
  pointers, length-pointers, pointers-append, nulls, set-append, get_elem?-append,
}
use bare_metal_architect.Text.{Text}
use bare_metal_architect.Stack.{User, Stack, stack_capacity, user_length, push, pop}

-- The users of the stack, the one on top last.
pub record Holds (s : Stack) (us : List User) : Type 0 where
  pub cells : s.users ≡ pointers us ++ replicate (stack_capacity - length us) none
  pub sized : s.size ≡ length us
  pub fits : length us < stack_capacity

-- What a call that ends in a stack leaves on it.
pub record Leaves (us : List User) (r : Outcome Stack) : Type 0 where
  pub after : Stack
  pub returned : r ≡ done after
  pub holds : Holds after us

abbrev pub LeavesIf : Bool → List User → Outcome Stack → Type 0
LeavesIf true us r = Leaves us r
LeavesIf false us r = r ≡ exits

module _ (s : Stack) (us : List User) (h : Holds s us) where
  at_end : s.size ≡ length (pointers us)
  at_end = h.sized ∙ sym (length-pointers us)

  room : s.users ≡ pointers us ++ (none ∷ replicate (4 - length us) none)
  room =
      rw (← nulls {A = User} (stack_capacity - length us) (4 - length us) (omega (arith, h.fits)))
        h.cells

  next_free : get_elem? s.users s.size ≡ some none
  next_free =
      rw (room, at_end) (get_elem?-append (pointers us) none (replicate (4 - length us) none))

  pushed :
      (u : User)
      → length us + 1 < stack_capacity
      → Holds (record { users = set s.users s.size (some u); size = s.size + 1 }) (us ++ (u ∷ []))
  pushed u lt =
      let more = length-append us (u ∷ []) in
      record {
        cells =
            rw
              (
                room,
                at_end,
                set-append (pointers us) none (replicate (4 - length us) none) (some u),
              )
              (sym (pointers-append us u (replicate (4 - length us) none))
                ∙ ap (λ n. pointers (us ++ (u ∷ [])) ++ replicate n none) (omega (arith, more)));
        sized = omega (arith, more, h.sized);
        fits = omega (arith, more, lt);
      }

  -- Whether there is memory, a name that is short enough, and room.
  abbrev pub may_push : Bool → ℕ → Bool
  may_push allocated n = allocated && ltb n user_length && ltb (length us) 4

  allowed :
      (allocated : Bool) (n : ℕ) → may_push allocated n ≡ true → length us + 1 < stack_capacity
  allowed true n e = ground arith
  allowed false n e = absurd (cc)

  verdict :
      (allocated : Bool) (name : Text) (n : ℕ) (age : ℤ)
      → push allocated s name (pos n) age ≡ (
          if may_push allocated n
          then done (record {
            users = set s.users s.size (some (record { name = take n name; age = age }));
            size = s.size + 1;
          })
          else exits)
  unfolding push
  verdict true name n age = ground (arith, h.sized, next_free)
  verdict false name n age = ground (arith, h.sized)

  -- `push` of the first n characters of a name: with memory, n below 10 and at most three users on
  -- the stack the user is on top of them; otherwise the process ends.
  pub push_lem :
      (allocated : Bool) (name : Text) (n : ℕ) (age : ℤ)
      → LeavesIf
          (may_push allocated n)
          (us ++ (record { name = take n name; age = age } ∷ []))
          (push allocated s name (pos n) age)
  unfolding push
  push_lem allocated name n age = elim (Bool-cases (may_push allocated n)) [
    | inl ok ↦
        rw (verdict allocated name n age, ok)
          (record {
            after = record {
              users = set s.users s.size (some (record { name = take n name; age = age }));
              size = s.size + 1;
            };
            returned = refl;
            holds = pushed (record { name = take n name; age = age }) (allowed allocated n ok);
          })
    | inr refused ↦ rw (verdict allocated name n age, refused) refl
  ]

module _ (s : Stack) (us : List User) (u : User) (h : Holds s (us ++ (u ∷ []))) where
  abbrev pad : List (Option User)
  pad = replicate (4 - length us) none

  cells_top : s.users ≡ pointers us ++ (some u ∷ pad)
  cells_top =
      h.cells
      ∙ ap (λ n. pointers (us ++ (u ∷ [])) ++ replicate n none)
          (omega (arith, length-append us (u ∷ [])))
      ∙ pointers-append us u pad

  top : s.size - 1 ≡ length (pointers us)
  top = omega (arith, h.sized, length-append us (u ∷ []), length-pointers us)

  busy : (s.size == 0) ≡ false
  busy = ground (arith, h.sized, length-append us (u ∷ []))

  -- `pop` of a stack with a user on top, with memory: that user is returned, and the others stay.
  pub pop_lem : (s' : Stack) × (pop true s ≡ done (s', u)) × Holds s' us
  unfolding pop
  pop_lem = (
    record { users = set s.users (s.size - 1) none; size = s.size - 1 },
    rw (busy, top, cells_top, get_elem?-append (pointers us) (some u) pad) refl,
    record {
      cells =
          rw (top, cells_top, set-append (pointers us) (some u) pad none)
            (ap (λ l. pointers us ++ l)
              (sym (
                nulls (5 - length us) (4 - length us)
                  (omega (arith, h.fits, length-append us (u ∷ []))))));
      sized = omega (arith, h.sized, length-append us (u ∷ []));
      fits = omega (arith, h.fits, length-append us (u ∷ []));
    },
  )

-- A `push` of a short name to a stack of at most three users and then a `pop`: the pushed user
-- comes back, and the stack is as it was.
pub pop-push :
    (s : Stack) (us : List User) (name : Text) (n : ℕ) (age : ℤ)
    → Holds s us
    → n < user_length
    → length us < 4
    → (s' : Stack) × ((push true s name (pos n) age >>= λ pushed. pop true pushed)
        ≡ done (s', record { name = take n name; age = age }))
      × Holds s' us
pop-push s us name n age h short room =
    let u : User = record { name = take n name; age = age } in
    let s' : Stack = record { users = set s.users s.size (some u); size = s.size + 1 } in
    let ok : may_push s us h true n ≡ true = ground arith in
    let (s'', popped, h'') = pop_lem s' us u (pushed s us h u (omega arith)) in
    (s'', rw (verdict s us h true name n age, ok) popped, h'')
