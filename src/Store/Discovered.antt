-- ===== src/Store/Discovered.antt =====
-- `store_discovered_post` of crawler/store.py: a row of a listing, with no body yet.
use re_dstm.Prelude.{
  ℕ, suc, max, String, Bool, false, not, ◌&&◌, ◌||◌, Option, none, some, List, [], ◌∷◌, ◌++◌,
  Result, ok, value_error, integrity_error, raise_if, ◌>>=◌, ◌>>◌, ◌==◌, str_eq, is_none, coalesce,
  if◌then◌else◌, any, find, update_where,
}
use re_dstm.Frontier.Table.{Post, post_at}
use re_dstm.Frontier.Clock.{DateTime}
use re_dstm.Store.Tables.{Store, stamp, is_orphan}

-- a `DiscoveredPostItem`, with its title stripped
pub record Discovered : Type 0 where
  pub board_id : String
  pub external_post_id : ℕ
  pub canonical_url : String
  pub title : String
  pub author : Option String
  pub category : Option String
  pub created_at_raw : Option String
  pub comment_count : ℕ

-- `ON CONFLICT (board_id, external_post_id) DO UPDATE SET ...`
abbrev pub refresh : Discovered → ℕ → Post → Post
refresh item at p = record p {
  canonical_url = item.canonical_url;
  title = if is_none p.latest_version_id then item.title else p.title;
  author = coalesce item.author p.author;
  category = coalesce item.category p.category;
  created_at_raw = coalesce item.created_at_raw p.created_at_raw;
  last_seen_at = at;
  comment_count = item.comment_count;
}

abbrev pub max_id : List Post → ℕ
max_id [] = 0
max_id (p ∷ ps) = max p.id (max_id ps)

abbrev outline : ℕ → Discovered → ℕ → Post
outline id item at = record {
  id = id;
  board_id = item.board_id;
  external_post_id = item.external_post_id;
  canonical_url = item.canonical_url;
  title = item.title;
  author = item.author;
  category = item.category;
  created_at_source = none;
  created_at_raw = item.created_at_raw;
  first_seen_at = at;
  last_seen_at = at;
  views = 0;
  comment_count = item.comment_count;
  is_aa = false;
  latest_version_id = none;
  availability = "unknown";
  last_collected_at = none;
}

-- another post has the URL, which is UNIQUE
abbrev clashes : Discovered → Post → Bool
clashes item p =
    str_eq p.canonical_url item.canonical_url && not (post_at item.board_id item.external_post_id p)

abbrev pub id_of : Option Post → ℕ
id_of none = 0
id_of (some p) = p.id

-- The post is there after the statement. Its board is looked at when it is new.
unfoldable pub store_discovered_post : Store → Discovered → DateTime → Result (ℕ × Store)
store_discovered_post s item seen_at = do
  at ← stamp seen_at
  raise_if (str_eq item.title "" || item.external_post_id == 0)
      (value_error "discovered post metadata is invalid")
  raise_if (any (clashes item) s.archive.posts)
      (integrity_error "UNIQUE constraint failed: posts.canonical_url")
  let key = post_at item.board_id item.external_post_id
  raise_if (not (any key s.archive.posts) && is_orphan s.archive.boards item.board_id)
      (integrity_error "FOREIGN KEY constraint failed")
  let posts =
      if any key s.archive.posts
      then update_where key (refresh item at) s.archive.posts
      else s.archive.posts ++ outline (suc (max_id s.archive.posts)) item at ∷ []
  ok (id_of (find key posts), record s { archive = record s.archive { posts = posts } })
