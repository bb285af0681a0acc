-- ===== src/Grading/Bank/AccountSegment.antt =====
-- `AccountSegment` of grading/workload.hpp: where the members of a segment of accounts stand.
use cs453_2025_project.Prelude.{ℕ, ◌+◌, ◌*◌}
use cs453_2025_project.Machine.{Ptr}
use cs453_2025_project.Grading.Transaction.{after, at}

-- Number of allocated accounts in the segment
abbrev pub count : Ptr → Ptr
count address = address

-- Next allocated segment
abbrev pub next : Ptr → Ptr
next address = after (count address)

-- Correction of the balance for deleted accounts
abbrev pub parity : Ptr → Ptr
parity address = after (next address)

abbrev pub accounts : Ptr → ℕ → Ptr
accounts address index = at (after (parity address)) index

-- `sizeof(Dummy) + nbaccounts * sizeof(Balance)`
abbrev pub size : ℕ → ℕ
size nbaccounts = 24 + nbaccounts * 8

-- `sizeof(AccountSegment)`: four `Shared`, each a reference and an address.
abbrev pub size_of : ℕ
size_of = 64
