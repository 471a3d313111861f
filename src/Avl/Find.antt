-- ===== src/Avl/Find.antt =====
-- The search of a tree as a search of its items.
use olsrd_hybrid_plc.Prelude.{ℕ, ◌≡◌, refl, ◌∙◌, Option, none, some, [], ◌==◌, if◌then◌else◌}
use olsrd_hybrid_plc.Avl.{Item, Tree, leaf, node, avl_find, avl_find_rec}
use olsrd_hybrid_plc.Avl.Inorder.{inorder}
use olsrd_hybrid_plc.Avl.Order.{Sorted, find_item, reached, reached_lem}

same_end :
    (key : ℕ) (t : Tree)
    → (elim t as (λ u. Option Item) [
      | leaf ↦ none
      | node l x b r ↦ if x.0 == key then some x else none
    ])
      ≡ reached key t
same_end key leaf = refl
same_end key (node l x b r) = refl

-- In a tree whose keys increase in order, the search finds the item with the key where there is one,
-- and nothing where there is none.
pub avl_find-find_item :
    (root : Tree) (key : ℕ)
    → Sorted (inorder root)
    → avl_find root key ≡ find_item key (inorder root)
unfolding avl_find
avl_find-find_item root key s =
    same_end key (avl_find_rec key root []).0 ∙ reached_lem key root [] s
