-- ===== src/Cosmos/Server.antt =====
-- The container that internal/coord/cosmosdb/cosmosdb.go calls. The server gives every version of a
-- document a new etag, and replaces or deletes a document only under the etag that the request names.
-- What the client reports beside that (nil, or an error under which the container stays as it is) is an
-- argument.
use rss2msg.Prelude.{
  ℕ, suc, Str, Bool, not, ◌||◌, Option, none, some, List, [], ◌==◌, str_eq, if◌then◌else◌,
}
use rss2msg.Prelude.Map.{lookup, insert, filter_keys}
use rss2msg.Errors.{Err, other}

-- The `leaseDoc` struct, with the etag of its version; its id and partition key are its key.
pub record LeaseDoc : Type 0 where
  pub owner : Str
  pub lease_expiry : ℕ
  pub etag : ℕ

pub record Container : Type 0 where
  pub docs : List (Str × LeaseDoc)
  pub next_etag : ℕ

-- An error of the client, with the HTTP status of an azcore.ResponseError (0 for any other error).
pub record Failure : Type 0 where
  pub status : ℕ
  pub reason : Err

pub data Reply (A : Type 0) : Type 0 where
  answer : A → Reply A
  refused : Failure → Reply A

abbrev status_error : ℕ → Failure
status_error n = record { status = n; reason = other [] }

abbrev pub conflict : ℕ
conflict = 409

abbrev pub precondition_failed : ℕ
precondition_failed = 412

abbrev pub not_found : ℕ
not_found = 404

abbrev pub is_status : Failure → ℕ → Bool
is_status f n = f.status == n

-- Another instance was first.
abbrev pub lost_race : Failure → Bool
lost_race f = is_status f precondition_failed || is_status f not_found

-- A new version of a document.
unfoldable pub put : Str → Str → ℕ → Container → Container
unfolding insert
put key owner expiry t = record {
  docs = insert key (record { owner = owner; lease_expiry = expiry; etag = t.next_etag }) t.docs;
  next_etag = suc t.next_etag;
}

abbrev pub create_if : Option LeaseDoc → Str → Str → ℕ → Container → Reply ℕ × Container
create_if none key owner expiry t = (answer t.next_etag, put key owner expiry t)
create_if (some d) key owner expiry t = (refused (status_error conflict), t)

-- CreateItem
unfoldable pub create_item : Option Failure → Str → Str → ℕ → Container → Reply ℕ × Container
unfolding lookup put
create_item (some f) key owner expiry t = (refused f, t)
create_item none key owner expiry t = create_if (lookup key t.docs) key owner expiry t

abbrev pub found : Option LeaseDoc → Reply LeaseDoc
found none = refused (status_error not_found)
found (some d) = answer d

-- ReadItem
unfoldable pub read_item : Option Failure → Str → Container → Reply LeaseDoc
unfolding lookup
read_item (some f) key t = refused f
read_item none key t = found (lookup key t.docs)

-- The status with which a write under an etag is refused, if it is.
abbrev pub refusal : ℕ → Option LeaseDoc → Option ℕ
refusal etag none = some not_found
refusal etag (some d) = if d.etag == etag then none else some precondition_failed

abbrev pub replace_if : Option ℕ → Str → Str → ℕ → Container → Reply ℕ × Container
replace_if none key owner expiry t = (answer t.next_etag, put key owner expiry t)
replace_if (some n) key owner expiry t = (refused (status_error n), t)

-- ReplaceItem with If-Match
unfoldable pub replace_item : Option Failure → ℕ → Str → Str → ℕ → Container → Reply ℕ × Container
unfolding lookup put
replace_item (some f) etag key owner expiry t = (refused f, t)
replace_item none etag key owner expiry t =
    replace_if (refusal etag (lookup key t.docs)) key owner expiry t

abbrev pub delete_if : Option ℕ → Str → Container → Option Failure × Container
delete_if none key t = (none, record t { docs = filter_keys (λ k. not (str_eq k key)) t.docs })
delete_if (some n) key t = (some (status_error n), t)

-- DeleteItem with If-Match
unfoldable pub delete_item : Option Failure → ℕ → Str → Container → Option Failure × Container
unfolding lookup filter_keys
delete_item (some f) etag key t = (some f, t)
delete_item none etag key t = delete_if (refusal etag (lookup key t.docs)) key t
