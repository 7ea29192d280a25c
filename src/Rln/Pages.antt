-- ===== src/Rln/Pages.antt =====
-- The loop over the pages of a listing, of `list` and `list_payments` in rln.rs. The loop has no bound
-- of its own: none says that it has not ended within the number of pages given.
pub mod Complete
use rln_companion.Base.{
  ℕ, zero, suc, Bool, ◌||◌, Option, none, some, List, ◌++◌, length, Exec, pure, ◌>>=◌, ◌>>◌, ltb,
  if◌then◌else◌, sql_eq, Eq_ℕ,
}
use rln_companion.Rln.Types.{RlnError}

pub record Page (A : Type 0) : Type 0 where
  pub items : List A
  pub last_index_offset : ℕ

-- The page is not full, or the node names the offset it was asked for.
abbrev pub is_last : {A : Type 0} → ℕ → Option ℕ → Page A → Bool
is_last page_size offset page =
    ltb (length page.items) page_size || sql_eq offset (some page.last_index_offset)

module _ {N A : Type 0} (fetch : Option ℕ → Exec N RlnError (Page A)) (page_size : ℕ) where
  unfoldable pub follow : ℕ → Option ℕ → List A → Exec N RlnError (Option (List A))
  unfolding ◌>>=◌
  follow zero offset out = pure none
  follow (suc more) offset out = do
    page ← fetch offset
    if is_last page_size offset page
        then pure (some (out ++ page.items))
        else follow more (some page.last_index_offset) (out ++ page.items)
