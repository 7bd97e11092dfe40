-- ===== src/Teamly/Pages/Slugs.antt =====
-- teamly/src/lib/services: `createPage` of pages.ts and `createSpace` of spaces.ts, on a database with the
-- foreign keys and unique indexes of teamly/prisma/schema.prisma.
use nastroyka_claude.Base.{
  ◌≡◌, refl, sym, subst, false, Option, some, List, [], ◌∷◌, ◌++◌, Text, eq_text_iff, mem_text,
  arith, ℕ, ◌≤◌, true, ap, Bool, Bool-cases, inl, inr, ◌⊎◌, ◌↔◌, ◌&&◌, not, none, length, keep,
  eq_text, eq_text_refl,
}
use nastroyka_claude.Domain.Errors.{Error, Result, ok, err}
use nastroyka_claude.Base.Sets.{IsDistinct, mem-append}
use nastroyka_claude.Teamly.Slug.{Unicode}
use nastroyka_claude.Teamly.Slug.Unique.{unique_slug_free}
use nastroyka_claude.Teamly.Pages.{PageData, Prisma, create_page, create_space, page_data}

-- How often a slug stands in a list.
abbrev pub occurrences : Text → List Text → ℕ
occurrences x ys = length (keep (eq_text x) ys)

-- A page's parent, where one is given, is stored.
abbrev pub has_parent : {S : Type 0} → (has_page : Text → S → Bool) → Option Text → S → Bool
has_parent has_page none s = true
has_parent has_page (some page_id) s = has_page page_id s

-- What the inserts do on a database with the foreign keys of Page and Space and their unique slugs, where
-- the three tests tell which spaces, pages and workspaces are stored: with the rows it refers to stored and
-- its slug not taken, an insert adds the slug to those that are read back, in whatever order; otherwise it
-- throws and writes nothing. Writes that fail because the database is unreachable are left out.
pub record IsDatabase (db : Prisma) (has_space has_page has_workspace : Text → db.State → Bool)
    : Type 0 where
  pub page_written :
      (d : PageData) (s : db.State)
      → has_space d.space_id s ≡ true
      → has_parent has_page d.parent_id s ≡ true
      → mem_text d.slug (db.slugs_of_space d.space_id s) ≡ false
      → (t : db.State) × ((db.insert_page d s ≡ (ok tt, t))
          × ((x : Text)
              → occurrences x (db.slugs_of_space d.space_id t)
                ≡ occurrences x (db.slugs_of_space d.space_id s ++ d.slug ∷ [])))
  pub page_refused :
      (d : PageData) (s : db.State)
      → (has_space d.space_id s
          && has_parent has_page d.parent_id s
          && not (mem_text d.slug (db.slugs_of_space d.space_id s)))
        ≡ false
      → (x : Error) × (db.insert_page d s ≡ (err x, s))
  pub space_written :
      (w name slug : Text) (s : db.State)
      → has_workspace w s ≡ true
      → mem_text slug (db.slugs_of_workspace w s) ≡ false
      → (t : db.State) × ((db.insert_space w name slug s ≡ (ok tt, t))
          × ((x : Text)
              → occurrences x (db.slugs_of_workspace w t)
                ≡ occurrences x (db.slugs_of_workspace w s ++ slug ∷ [])))
  pub space_refused :
      (w name slug : Text) (s : db.State)
      → (has_workspace w s && not (mem_text slug (db.slugs_of_workspace w s))) ≡ false
      → (x : Error) × (db.insert_space w name slug s ≡ (err x, s))

IsDistinct-append :
    (x : Text) (xs : List Text) → IsDistinct xs → mem_text x xs ≡ false → IsDistinct (xs ++ x ∷ [])
unfolding mem_text
IsDistinct-append x [] d h = (refl, tt)
IsDistinct-append x (y ∷ xs) d h = (
  ground (arith, d.0, h, mem-append x y xs, eq_text_iff x y, eq_text_iff y x),
  IsDistinct-append x xs d.1 (ground (arith, h)),
)

mem-occurrences : (x : Text) (xs : List Text) → (mem_text x xs ≡ false) ↔ (occurrences x xs ≡ 0)
unfolding mem_text
mem-occurrences x [] = (λ _. refl, λ _. refl)
mem-occurrences x (y ∷ xs) =
    let (to, from) = mem-occurrences x xs in
    (λ h. ground (arith, h, to), λ h. ground (arith, h, from))

occurrences-le : (x : Text) (xs : List Text) → IsDistinct xs → occurrences x xs ≤ 1
occurrences-le x [] d = ground arith
occurrences-le x (y ∷ xs) d = elim (Bool-cases (eq_text x y)) [
  | inl e ↦
      let none_left : occurrences x xs ≡ 0 =
        subst (λ z. occurrences z xs ≡ 0) (sym ((eq_text_iff x y).0 e))
          ((mem-occurrences y xs).0 d.0) in
      ground (arith, e, none_left)
  | inr e ↦ ground (arith, e, occurrences-le x xs d.1)
]

occurrences-IsDistinct : (xs : List Text) → ((x : Text) → occurrences x xs ≤ 1) → IsDistinct xs
occurrences-IsDistinct [] h = tt
occurrences-IsDistinct (y ∷ xs) h = (
  (mem-occurrences y xs).1 (ground (arith, h y, eq_text_refl y)),
  occurrences-IsDistinct xs (λ x. ground (arith, h x)),
)

-- Slugs that are different from each other still are with a free one added, in whatever order.
added-IsDistinct :
    (slug : Text) (xs ys : List Text)
    → IsDistinct xs
    → mem_text slug xs ≡ false
    → ((x : Text) → occurrences x ys ≡ occurrences x (xs ++ slug ∷ []))
    → IsDistinct ys
added-IsDistinct slug xs ys d free same = occurrences-IsDistinct ys (λ x.
    let bound = occurrences-le x (xs ++ slug ∷ []) (IsDistinct-append slug xs d free) in
    omega (arith, same x, bound))

-- What creating a page or a space comes to: the rows it refers to are stored, it returns, and the slugs that
-- are read back differ from each other; or one of them is not, it throws, and nothing is written.
pub Created :
    {S : Type 0}
    → (slugs : S → List Text) → (stored : Bool) → Option (Result (Unit {0}) × S)
    → S
    → Type 0
Created {S} slugs stored out s =
    ((stored ≡ true) × ((t : S) × ((out ≡ some (ok tt, t)) × IsDistinct (slugs t))))
    ⊎ ((stored ≡ false) × ((x : Error) × (out ≡ some (err x, s))))

module _ (u : Unicode) (db : Prisma) (has_space has_page has_workspace : Text → db.State → Bool)
    (laws : IsDatabase db has_space has_page has_workspace) where
  create_page-Created :
      (space_id : Text) (parent_id : Option Text) (title : Text) (s : db.State)
      → IsDistinct (db.slugs_of_space space_id s)
      → Created
          (db.slugs_of_space space_id)
          (has_space space_id s && has_parent has_page parent_id s)
          (create_page u db space_id parent_id title s)
          s
  unfolding create_page Created
  create_page-Created space_id parent_id title s pages =
      let (slug, found, free, _) = unique_slug_free u title (db.slugs_of_space space_id s) in
      let d = page_data db space_id parent_id title slug s in
      elim (Bool-cases (has_space space_id s && has_parent has_page parent_id s)) [
        | inl e ↦
            (let (t, (written, same)) =
                laws.page_written d s (ground (arith, e)) (ground (arith, e)) free in
              inl (
                e,
                (
                  t,
                  (
                    rw found (ap some written),
                    added-IsDistinct slug (db.slugs_of_space space_id s)
                        (db.slugs_of_space space_id t) pages free same,
                  ),
                ),
              ))
        | inr e ↦
            (let (x, refused) = laws.page_refused d s (ground (arith, e)) in
              inr (e, (x, rw found (ap some refused))))
      ]

  create_space-Created :
      (workspace_id name : Text) (s : db.State)
      → IsDistinct (db.slugs_of_workspace workspace_id s)
      → Created
          (db.slugs_of_workspace workspace_id)
          (has_workspace workspace_id s)
          (create_space u db workspace_id name s)
          s
  unfolding create_space Created
  create_space-Created workspace_id name s spaces =
      let (slug, found, free, _) = unique_slug_free u name (db.slugs_of_workspace workspace_id s) in
      elim (Bool-cases (has_workspace workspace_id s)) [
        | inl e ↦
            (let (t, (written, same)) = laws.space_written workspace_id name slug s e free in
              inl (
                e,
                (
                  t,
                  (
                    rw found (ap some written),
                    added-IsDistinct slug (db.slugs_of_workspace workspace_id s)
                        (db.slugs_of_workspace workspace_id t) spaces free same,
                  ),
                ),
              ))
        | inr e ↦
            (let (x, refused) = laws.space_refused workspace_id name slug s (ground (arith, e)) in
              inr (e, (x, rw found (ap some refused))))
      ]

  -- Creating a page returns when its space is stored and its parent too, where one is given, and creating a
  -- space returns when its workspace is stored: the search for a slug ends, and the slug is never refused as
  -- taken. Slugs that were different from each other, of the pages of the space and of the spaces of the
  -- workspace, still are. When a row it refers to is not stored, it throws and writes nothing.
  pub create_page-IsDistinct :
      (space_id workspace_id : Text) (parent_id : Option Text) (title : Text) (s : db.State)
      → IsDistinct (db.slugs_of_space space_id s)
      → IsDistinct (db.slugs_of_workspace workspace_id s)
      → Created
          (db.slugs_of_space space_id)
          (has_space space_id s && has_parent has_page parent_id s)
          (create_page u db space_id parent_id title s)
          s
        × Created
            (db.slugs_of_workspace workspace_id)
            (has_workspace workspace_id s)
            (create_space u db workspace_id title s)
            s
  create_page-IsDistinct space_id workspace_id parent_id title s pages spaces = (
    create_page-Created space_id parent_id title s pages,
    create_space-Created workspace_id title s spaces,
  )
