-- ===== src/Views.antt =====
-- The producers and consumers of pthread/prod_cons.c: the table of the views that the database
-- knows, the four lists of the views to process, and the semaphore that counts them.
pub mod Verify
pub mod Lists
pub mod Balance
mod Tests
use bare_metal_architect.Prelude.{
  ℕ, zero, suc, ◌+◌, ◌-◌, ◌*◌, ◌/◌, ◌%◌, ◌^◌, ◌≤◌, ◌<◌, ◌≡◌, refl, sym, ap, ◌∙◌, ◌≢◌, ◌↔◌, ◌⊎◌, inl,
  inr, Bool, true, false, ◌&&◌, ◌||◌, not, Option, none, some, List, [], ◌∷◌, ◌++◌, arith, ltb, leb,
  ◌==◌, if◌then◌else◌, Bool-cases, Option-cases, length, get_elem?, get_elem?-some, set, replicate,
  take, drop, All, length-append, length-set, length-replicate, get_elem?-set_self,
  get_elem?-set_ne, get_elem?-replicate, ℤ, pos, negsuc, to_uint8, Outcome, done, exits, fault,
  ◌>>=◌, ◌>>◌, or_fault, index, index_int, granted, ℕ_discrete, dec_lt, ltb→lt, lt→ltb, leb→le,
  ==_iff,
}
use bare_metal_architect.Chains.{linked}
use bare_metal_architect.Text.{Text, codes, str_eq, hash_uint8}

-- `DB_VIEWS`.
abbrev pub db_views : List Text
db_views =
    codes "users_view" ∷ codes "orders_view" ∷ codes "inventory_view" ∷ codes "logs_view" ∷ []

-- The loop of `verify_view`.
abbrev pub listed : Text → List Text → Bool
listed key [] = false
listed key (view ∷ rest) = if str_eq key view then true else listed key rest

unfoldable pub verify_view : Text → Outcome Bool
verify_view key = do
  view_idx ← hash_uint8 key 4
  view ← index db_views view_idx
  if str_eq key view then done true else done (listed key db_views)

-- The lists by the views in their nodes, from the head to the tail.
pub record Processor : Type 0 where
  pub list : List (List Text)
  pub capacity : ℕ
  pub size : ℕ

-- The first write to a node that was not allocated.
abbrev pub not_null : Bool → Outcome (Unit {0})
not_null true = done tt
not_null false = fault

-- The loop of `init_processor`: the heads are set before the test of the pointer.
abbrev pub make_lists : (ℕ → Bool) → ℕ → ℕ → Outcome (List (List Text))
make_lists alloc zero i = done []
make_lists alloc (suc n) i = do
  not_null (alloc i)
  rest ← make_lists alloc n (suc i)
  done ([] ∷ rest)

-- With the allocations of the processor, of the array and of the lists.
unfoldable pub init_processor : (ℕ → Bool) → Outcome Processor
init_processor alloc = do
  granted (alloc 0)
  granted (alloc 1)
  lists ← make_lists alloc 4 2
  done (record { list = lists; capacity = 4; size = 0 })

-- With the allocations of the node and of the copy of the name, which are not tested. The answer
-- says whether the view was added.
unfoldable pub add_view :
    Bool → Bool → Processor → Text → (Text → Outcome Bool) → Outcome (Processor × Bool)
add_view node copy processor view_name verify = do
  known ← verify view_name
  if not known then done (processor, false) else do
    not_null node
    not_null copy
    list_idx ← hash_uint8 view_name 4
    list ← index processor.list list_idx
    done (
      record processor {
        list = set processor.list list_idx (linked list view_name);
        size = (processor.size + 1) % 256;
      },
      true,
    )

-- The loop of `consume_any`, with `n` lists from `i` on; the view that it prints.
unfoldable pub consume_from : ℕ → ℕ → Processor → Outcome (Processor × Option Text)
consume_from zero i processor = done (processor, none)
consume_from (suc n) i processor = do
  list ← index processor.list i
  elim list [
    | [] ↦ consume_from n (suc i) processor
    | current ∷ rest ↦ done (
      record processor { list = set processor.list i rest; size = (processor.size + 255) % 256 },
      some current,
    )
  ]

unfoldable pub consume_any : Processor → Outcome (Processor × Option Text)
consume_any processor = consume_from 4 0 processor

-- The processor, the value of the semaphore, the producers that have unlocked the mutex and not yet
-- posted, the consumers that have passed `sem_wait` and not yet consumed, and the views added and
-- consumed so far, the oldest first.
pub record System : Type 0 where
  pub processor : Processor
  pub tokens : ℕ
  pub posting : ℕ
  pub holding : ℕ
  pub added : List Text
  pub consumed : List Text

abbrev pub printed : Option Text → List Text
printed none = []
printed (some view) = view ∷ []

-- What a thread does under the mutex, or on the semaphore.
pub data Step (s : System) : System → Type 0 where
  adds :
      (node copy : Bool) (view : Text) (p : Processor)
      → add_view node copy s.processor view verify_view ≡ done (p, true)
      → Step s (record s { processor = p; posting = s.posting + 1; added = s.added ++ (view ∷ []) })
  refuses :
      (node copy : Bool) (view : Text) (p : Processor)
      → add_view node copy s.processor view verify_view ≡ done (p, false)
      → Step s (record s { processor = p })
  posts : (n : ℕ) → s.posting ≡ suc n → Step s (record s { posting = n; tokens = s.tokens + 1 })
  waits : (n : ℕ) → s.tokens ≡ suc n → Step s (record s { tokens = n; holding = s.holding + 1 })
  consumes :
      (n : ℕ) (p : Processor) (view : Option Text)
      → s.holding ≡ suc n
      → consume_any s.processor ≡ done (p, view)
      → Step s (record s { processor = p; holding = n; consumed = s.consumed ++ printed view })

-- After `sem_open` with no token and `init_processor`.
abbrev pub started : Processor → System
started p = record {
  processor = p;
  tokens = 0;
  posting = 0;
  holding = 0;
  added = [];
  consumed = [];
}

pub data Reach (s : System) : System → Type 0 where
  here : Reach s s
  then_step : {m e : System} → Reach s m → Step m e → Reach s e
