-- ===== src/Teamly/Pages.antt =====
-- teamly/src/lib/services: pages.ts, and createSpace of spaces.ts and addComment of comments.ts. The
-- database behind Prisma is a parameter: its states, and the queries of the files on them. A write may
-- throw.
pub mod Slugs
use nastroyka_claude.Base.{
  ℕ, ◌+◌, Bool, true, false, Option, none, some, List, [], ◌∷◌, Text, text, trim,
}
use nastroyka_claude.Domain.Json.{Json, str, obj, arr, cons, nil, field, end}
use nastroyka_claude.Domain.Errors.{Error, Result, ok, err, thrown}
use nastroyka_claude.Exec.{Exec, pure, throw, gets, try_catch, ◌>>=◌, ◌>>◌}
use nastroyka_claude.Teamly.Slug.{Unicode, unique_slug}
use nastroyka_claude.Teamly.Tiptap.{extract_text}

-- The data of a page that is created.
pub record PageData : Type 0 where
  pub space_id : Text
  pub parent_id : Option Text
  pub title : Text
  pub slug : Text
  pub position : ℕ
  pub content_json : Json
  pub content_text : Text

pub record VersionData : Type 0 where
  pub page_id : Text
  pub version : ℕ
  pub title : Text
  pub content_json : Json
  pub author_id : Text

pub record CommentData : Type 0 where
  pub page_id : Text
  pub author_id : Text
  pub body : Text

-- `save` is the transaction that adds a version and updates the page.
pub record Prisma : Type 1 where
  pub State : Type 0
  pub slugs_of_space : (space_id : Text) → State → List Text
  pub slugs_of_workspace : (workspace_id : Text) → State → List Text
  pub count_siblings : (space_id : Text) → Option Text → State → ℕ
  pub insert_page : PageData → Exec State (Unit {0})
  pub insert_space : (workspace_id name slug : Text) → Exec State (Unit {0})
  pub insert_comment : CommentData → Exec State (Unit {0})
  pub last_version : (page_id : Text) → State → Option ℕ
  pub save : VersionData → (content_text : Text) → Exec State (Unit {0})
  pub index_page : (page_id : Text) → Exec State (Unit {0})
  pub set_place : (page_id : Text) → Option Text → ℕ → Exec State (Unit {0})
  pub set_archived : (page_id : Text) → Exec State (Unit {0})

-- EMPTY_DOC
abbrev pub empty_doc : Json
empty_doc = obj (
    field (text "type") (str (text "doc")) (
      field (text "content")
        (arr (cons (obj (field (text "type") (str (text "paragraph")) end)) nil)) end))

abbrev or_0 : Option ℕ → ℕ
or_0 none = 0
or_0 (some n) = n

module _ (db : Prisma) where
  -- The data of a page under this slug, after the siblings that it has.
  abbrev pub page_data : (space_id : Text) → Option Text → (title slug : Text) → db.State → PageData
  page_data space_id parent_id title slug s = record {
    space_id = space_id;
    parent_id = parent_id;
    title = title;
    slug = slug;
    position = db.count_siblings space_id parent_id s;
    content_json = empty_doc;
    content_text = [];
  }

module _ (u : Unicode) (db : Prisma) where
  -- What creating a page gives, when the search for the slug gave one.
  abbrev pub with_page :
      (space_id : Text)
      → Option Text
      → Text
      → Option Text
      → db.State
      → Option (Result (Unit {0}) × db.State)
  with_page space_id parent_id title none s = none
  with_page space_id parent_id title (some slug) s =
      some (db.insert_page (page_data db space_id parent_id title slug s) s)

  unfoldable pub create_page :
      (space_id : Text)
      → Option Text
      → (title : Text) → db.State
      → Option (Result (Unit {0}) × db.State)
  create_page space_id parent_id title s =
      with_page space_id parent_id title (unique_slug u title (db.slugs_of_space space_id s)) s

  abbrev pub with_space :
      (workspace_id name : Text) → Option Text → db.State → Option (Result (Unit {0}) × db.State)
  with_space workspace_id name none s = none
  with_space workspace_id name (some slug) s = some (db.insert_space workspace_id name slug s)

  unfoldable pub create_space :
      (workspace_id name : Text) → db.State → Option (Result (Unit {0}) × db.State)
  create_space workspace_id name s =
      with_space workspace_id name (unique_slug u name (db.slugs_of_workspace workspace_id s)) s

module _ (db : Prisma) where
  -- A failure of `indexPage` does not fail the save.
  unfoldable pub save_page_content :
      (page_id title : Text) → Json → (author_id : Text) → Exec db.State ℕ
  save_page_content page_id title content_json author_id = do
    last ← gets (db.last_version page_id)
    let version = or_0 last + 1
    db.save
        (record {
          page_id = page_id;
          version = version;
          title = title;
          content_json = content_json;
          author_id = author_id;
        })
        (extract_text content_json)
    try_catch (db.index_page page_id) (λ _. pure tt)
    pure version

  unfoldable pub move_page : (page_id : Text) → Option Text → ℕ → Exec db.State (Unit {0})
  move_page page_id parent_id position = db.set_place page_id parent_id position

  unfoldable pub archive_page : (page_id : Text) → Exec db.State (Unit {0})
  archive_page page_id = db.set_archived page_id

  abbrev with_body : (page_id author_id : Text) → Text → Exec db.State (Unit {0})
  with_body page_id author_id [] = throw (thrown (text "comment body is empty"))
  with_body page_id author_id (c ∷ t) =
      db.insert_comment (record { page_id = page_id; author_id = author_id; body = c ∷ t })

  unfoldable pub add_comment : (page_id author_id body : Text) → Exec db.State (Unit {0})
  add_comment page_id author_id body = with_body page_id author_id (trim body)
