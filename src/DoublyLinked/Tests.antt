-- ===== src/DoublyLinked/Tests.antt =====
-- The first two values of the `main` of double_linked_list.c, in a structure with room for its
-- members and in the one that dll_create allocates.
use bare_metal_architect.Prelude.{◌≡◌, refl, true, [], ◌∷◌, pos, done, fault, ◌>>=◌}
use bare_metal_architect.DoublyLinked.{
  dll_create, dll_append, dll_print_reverse, print_back, check_alloc, empty,
}

two_lines :
    (dll_append true (empty 24) (pos 14) >>= λ one.
    dll_append true one (pos 7) >>= dll_print_reverse 2)
    ≡ done ((1, pos 7) ∷ (0, pos 14) ∷ [])
unfolding dll_append check_alloc dll_print_reverse print_back
two_lines = refl

never_created : dll_create true ≡ fault
unfolding dll_create check_alloc
never_created = refl
