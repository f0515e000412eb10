-- ===== src/Compaction/Window.antt =====
-- The array between two iterations: what is kept, what is overwritten later, what is still to read.
use bare_metal_architect.Prelude.{append_assoc}
use bare_metal_architect.Prelude.{
  ℕ, suc, ◌+◌, ◌≡◌, refl, sym, ap, ◌∙◌, true, some, List, [], ◌∷◌, ◌++◌, arith, length, get_elem?,
  length-append, done,
}
use bare_metal_architect.Arrays.{get_elem?-append, set-append}
use bare_metal_architect.Compaction.{write_if}

module _ {A : Type 0} where
  -- The elements kept end at the write index, and those to read begin at the read index.
  pub record Window (nums out rest : List A) (fs sw : ℕ) : Type 0 where
    pub between : List A
    pub split : nums ≡ out ++ (between ++ rest)
    pub to_write : sw ≡ length out
    pub to_read : fs ≡ length out + length between

  pub whole-Window : (nums : List A) → Window nums [] nums 0 0
  whole-Window nums = record { between = []; split = refl; to_write = refl; to_read = refl }

  module _ (nums out rest : List A) (x : A) (fs sw : ℕ) (w : Window nums out (x ∷ rest) fs sw) where
    pub next-read : get_elem? nums fs ≡ some x
    next-read =
        ap (get_elem? nums) (
          w.to_read
          ∙ omega (arith, length-append out w.between)
          ∙ ap (λ n. n) (sym (length-append out w.between)))
        ∙ ap (λ xs. get_elem? xs (length (out ++ w.between)))
            (w.split ∙ sym (append_assoc out w.between (x ∷ rest)))
        ∙ get_elem?-append (out ++ w.between) x rest

    pub skipped-Window : Window nums out rest (suc fs) sw
    skipped-Window = record {
      between = w.between ++ (x ∷ []);
      split = w.split ∙ ap (◌++◌ out) (sym (append_assoc w.between (x ∷ []) rest));
      to_write = w.to_write;
      to_read = omega (arith, w.to_read, length-append w.between (x ∷ []));
    }

    -- The write of the element behind the kept ones.
    pub kept-Window :
        (nums' : List A) × (write_if true nums sw x ≡ done (nums', suc sw))
        × Window nums' (out ++ (x ∷ [])) rest (suc fs) (suc sw)
    kept-Window = at w.between w.split w.to_read
      where
        at :
            (between : List A)
            → nums ≡ out ++ (between ++ (x ∷ rest))
            → fs ≡ length out + length between
            → (nums' : List A) × (write_if true nums sw x ≡ done (nums', suc sw))
              × Window nums' (out ++ (x ∷ [])) rest (suc fs) (suc sw)
        at [] split to_read = (
          out ++ (x ∷ rest),
          rw (split, w.to_write, get_elem?-append out x rest, set-append out x rest x) refl,
          record {
            between = [];
            split = sym (append_assoc out (x ∷ []) rest);
            to_write = omega (arith, w.to_write, length-append out (x ∷ []));
            to_read = omega (arith, to_read, length-append out (x ∷ []));
          },
        )
        at (j ∷ between) split to_read = (
          out ++ (x ∷ (between ++ (x ∷ rest))),
          rw
              (
                split,
                w.to_write,
                get_elem?-append out j (between ++ (x ∷ rest)),
                set-append out j (between ++ (x ∷ rest)) x,
              )
              refl,
          record {
            between = between ++ (x ∷ []);
            split =
                ap (λ xs. out ++ (x ∷ xs)) (sym (append_assoc between (x ∷ []) rest))
                ∙ sym (append_assoc out (x ∷ []) ((between ++ (x ∷ [])) ++ rest));
            to_write = omega (arith, w.to_write, length-append out (x ∷ []));
            to_read =
                omega (arith, to_read, length-append out (x ∷ []), length-append between (x ∷ []));
          },
        )
