-- ===== src/Template.antt =====
-- template/tm.c: the skeleton of a transactional memory, whose operations touch nothing and refuse.
-- The answers are those of include/tm.h; `none` is `invalid_shared`.
use cs453_2025_project.Prelude.{ℕ, Bool, false, Option, none}
use cs453_2025_project.Machine.{Ptr, Prog, ret}
use cs453_2025_project.Tm.{AllocT, abort_alloc}
use cs453_2025_project.Reference.{invalid_tx}

abbrev pub tm_create : ℕ → ℕ → Prog (Option Ptr)
tm_create size align = ret none

abbrev pub tm_destroy : Ptr → Prog (Unit {0})
tm_destroy shared = ret tt

abbrev pub tm_start : Ptr → Prog Ptr
tm_start shared = ret 0

abbrev pub tm_size : Ptr → Prog ℕ
tm_size shared = ret 0

abbrev pub tm_align : Ptr → Prog ℕ
tm_align shared = ret 0

abbrev pub tm_begin : Ptr → Bool → Prog ℕ
tm_begin shared is_ro = ret invalid_tx

abbrev pub tm_end : Ptr → ℕ → Prog Bool
tm_end shared tx = ret false

abbrev pub tm_read : Ptr → ℕ → Ptr → ℕ → Ptr → Prog Bool
tm_read shared tx source size target = ret false

abbrev pub tm_write : Ptr → ℕ → Ptr → ℕ → Ptr → Prog Bool
tm_write shared tx source size target = ret false

-- `target` is left as it is.
abbrev pub tm_alloc : Ptr → ℕ → ℕ → Ptr → Prog AllocT
tm_alloc shared tx size target = ret abort_alloc

abbrev pub tm_free : Ptr → ℕ → Ptr → Prog Bool
tm_free shared tx target = ret false
