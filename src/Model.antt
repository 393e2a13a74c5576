-- ===== src/Model.antt =====
-- internal/model/change.go: the change envelope, the identity of an item and its content hash.
-- SHA-256 in hex and the RFC 3339 form of an instant are parameters. An instant is counted from
-- Go's zero time, so `Time.IsZero` is a test for 0.
pub mod Space
pub mod Hash
use rss2msg.Prelude.{
  ℕ, Str, lit, Bool, true, false, Option, none, some, List, [], ◌∷◌, ◌++◌, is_empty, ◌==◌,
  if◌then◌else◌,
}
use rss2msg.Prelude.Int.{ℤ}
use Space.{fields, join_words, trim_space}

abbrev pub Time : Type 0
Time = ℕ

pub data ChangeKind : Type 0 where
  new updated : ChangeKind

abbrev pub schema_version : ℕ
schema_version = 1

pub record Change : Type 0 where
  pub schema : ℕ
  pub feed_url : Str
  pub feed_title : Str
  pub item_id : Str
  pub kind : ChangeKind
  pub title : Str
  pub link : Str
  pub authors : List Str
  pub summary : Str
  pub content : Str
  pub categories : List Str
  pub published_at : Option Time
  pub updated_at : Option Time
  pub content_hash : Str
  pub detected_at : Time
  pub dlq_from_sink : Str
  pub dlq_error : Str
  pub dlq_attempts : ℕ

-- What MarshalJSON sets before it hands the fields to encoding/json.
unfoldable to_wire : Change → Change
to_wire c = if c.schema == 0 then record c { schema = schema_version } else c

-- `writeField`: the bytes that it adds to the digest.
unfoldable pub write_field : Str → Str
write_field s = join_words (fields s) ++ (0 ∷ [])

module _ (rfc3339 : Time → Str) where
  -- Everything that `ContentHash` writes to the digest.
  unfoldable pub hash_input : Str → Str → Str → Str → Time → Str
  unfolding write_field
  hash_input title link body author updated_at =
      write_field title
      ++ (write_field link
          ++ (write_field body ++ (write_field author ++ write_field (rfc3339 updated_at))))

module _ (sha256_hex : Str → Str) (rfc3339 : Time → Str) where
  unfoldable pub content_hash : Str → Str → Str → Str → Time → Str
  unfolding hash_input
  content_hash title link body author updated_at =
      sha256_hex (hash_input rfc3339 title link body author updated_at)

  unfoldable pub identity_key : Str → Str → Str → Time → Str
  identity_key guid link title published_at =
      if is_empty guid
      then (if is_empty link
          then sha256_hex (trim_space title ++ (lit "|" ++ rfc3339 published_at))
          else link)
      else guid
