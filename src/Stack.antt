-- ===== src/Stack.antt =====
-- The stack of data-structures/stack.c: pointers to users in an array of five.
pub mod Order
mod Tests
use bare_metal_architect.Prelude.{
  ℕ, zero, suc, ◌+◌, ◌-◌, ◌*◌, ◌/◌, ◌%◌, ◌^◌, ◌≤◌, ◌<◌, ◌≡◌, refl, sym, ap, ◌∙◌, ◌≢◌, ◌↔◌, ◌⊎◌, inl,
  inr, Bool, true, false, ◌&&◌, ◌||◌, not, Option, none, some, List, [], ◌∷◌, ◌++◌, arith, ltb, leb,
  ◌==◌, if◌then◌else◌, Bool-cases, Option-cases, length, get_elem?, get_elem?-some, set, replicate,
  take, drop, All, length-append, length-set, length-replicate, get_elem?-set_self,
  get_elem?-set_ne, get_elem?-replicate, ℤ, pos, negsuc, to_uint8, Outcome, done, exits, fault,
  ◌>>=◌, ◌>>◌, or_fault, index, index_int, granted, ℕ_discrete, dec_lt, ltb→lt, lt→ltb, leb→le,
  ==_iff,
}
use bare_metal_architect.Text.{Text}

abbrev pub user_length : ℕ
user_length = 10

abbrev pub stack_capacity : ℕ
stack_capacity = 5

pub record User : Type 0 where
  pub name : Text
  pub age : ℤ

pub record Stack : Type 0 where
  pub users : List (Option User)
  pub size : ℕ

pub init_stack : Bool → Outcome Stack
init_stack allocated =
    if allocated then done (record { users = replicate stack_capacity none; size = 0 }) else exits

-- `strncpy` of `name_length` characters; a negative length is one of more than the memory has.
abbrev pub copied : Text → ℤ → Outcome Text
copied name (pos n) = done (take n name)
copied name (negsuc n) = fault

abbrev pub too_long : ℤ → Bool
too_long (pos n) = leb user_length n
too_long (negsuc n) = false

pub push : Bool → Stack → Text → ℤ → ℤ → Outcome Stack
push allocated stack name name_length age =
    if leb stack_capacity (stack.size + 1)
    then exits
    else if too_long name_length || not allocated
    then exits
    else do
      _ ← index stack.users stack.size
      bytes ← copied name name_length
      done (record {
        users = set stack.users stack.size (some (record { name = bytes; age = age }));
        size = stack.size + 1;
      })

-- The pointer to the user that is freed is `none` in the array: to follow it is undefined.
pub pop : Bool → Stack → Outcome (Stack × User)
pop allocated stack = if stack.size == 0 || not allocated then exits else do
  pointer ← index stack.users (stack.size - 1)
  root ← or_fault pointer
  done (record { users = set stack.users (stack.size - 1) none; size = stack.size - 1 }, root)
