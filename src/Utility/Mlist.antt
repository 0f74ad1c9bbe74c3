-- ===== src/Utility/Mlist.antt =====
-- The list of open files and directories of include/lfs_utility.h, by the addresses of its nodes.
use littlefs_v.Base.{
  ℕ, List, [], ◌∷◌, Bool, true, false, ◌==◌, if◌then◌else◌, ◌≡◌, ◌≢◌, inl, inr, Bool-cases, arith,
}

-- lfs_mlist_isopen
unfoldable pub mlist_isopen : List ℕ → ℕ → Bool
mlist_isopen [] node = false
mlist_isopen (n ∷ rest) node =
    let later = mlist_isopen rest node in if n == node then true else later

-- lfs_mlist_append: the node becomes the head.
unfoldable pub mlist_append : List ℕ → ℕ → List ℕ
mlist_append nodes node = node ∷ nodes

-- lfs_mlist_remove: the first node at the address goes.
unfoldable pub mlist_remove : List ℕ → ℕ → List ℕ
mlist_remove [] node = []
mlist_remove (n ∷ rest) node =
    let later = mlist_remove rest node in if n == node then rest else n ∷ later

-- A list of nodes of which none stands twice.
abbrev pub IsApart : List ℕ → Type 0
IsApart [] = Unit
IsApart (n ∷ rest) = (mlist_isopen rest n ≡ false) × IsApart rest

remove-isopen_other :
    (nodes : List ℕ) (node other : ℕ)
    → other ≢ node
    → mlist_isopen (mlist_remove nodes node) other ≡ mlist_isopen nodes other
unfolding mlist_remove mlist_isopen
remove-isopen_other [] node other n = ground arith
remove-isopen_other (m ∷ rest) node other n = ground (arith, remove-isopen_other rest node other)

remove-isopen_self :
    (nodes : List ℕ) (node : ℕ)
    → IsApart nodes
    → mlist_isopen (mlist_remove nodes node) node ≡ false
unfolding mlist_remove mlist_isopen
remove-isopen_self [] node a = ground arith
remove-isopen_self (m ∷ rest) node a = ground (arith, a.0, remove-isopen_self rest node a.1)

remove-absent :
    (nodes : List ℕ) (node other : ℕ)
    → mlist_isopen nodes other ≡ false
    → mlist_isopen (mlist_remove nodes node) other ≡ false
unfolding mlist_remove mlist_isopen
remove-absent [] node other h = ground arith
remove-absent (m ∷ rest) node other h = ground (arith, remove-absent rest node other)

remove-IsApart : (nodes : List ℕ) (node : ℕ) → IsApart nodes → IsApart (mlist_remove nodes node)
unfolding mlist_remove
remove-IsApart [] node a = tt
remove-IsApart (m ∷ rest) node (a, b) = elim (Bool-cases (m == node)) [
  | inl e ↦ rw e b
  | inr e ↦ rw e (remove-absent rest node m a, remove-IsApart rest node b)
]

-- On a list on which no node stands twice, opening a node that is not open puts it on the list, and
-- closing a node takes it off; every other node stays as it was, neither makes a node stand
-- twice, and a node that is closed right after it was opened leaves the list as it was.
pub mlist_lem :
    (nodes : List ℕ) (node other : ℕ)
    → IsApart nodes
    → other ≢ node
    → (mlist_isopen (mlist_append nodes node) node ≡ true)
      × (mlist_isopen (mlist_append nodes node) other ≡ mlist_isopen nodes other)
      × (mlist_isopen nodes node ≡ false → IsApart (mlist_append nodes node))
      × (mlist_isopen (mlist_remove nodes node) node ≡ false)
      × (mlist_isopen (mlist_remove nodes node) other ≡ mlist_isopen nodes other)
      × IsApart (mlist_remove nodes node)
      × (mlist_remove (mlist_append nodes node) node ≡ nodes)
unfolding mlist_append mlist_remove mlist_isopen
mlist_lem nodes node other apart ne = (
  ground arith,
  ground arith,
  λ h. (h, apart),
  remove-isopen_self nodes node apart,
  remove-isopen_other nodes node other ne,
  remove-IsApart nodes node apart,
  ground arith,
)
