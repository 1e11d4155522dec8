-- ===== src/Cache/Books.antt =====
-- src/application/cache/book.rs: the latest book of each token. The broadcast channel is tokio's;
-- what has been sent on it is kept as a list.
use edgelord.Common.{
  ℕ, ◌≡◌, Bool, true, false, List, [], ◌∷◌, ◌++◌, map, Option, some, ◌==◌, string_eq, if◌then◌else◌,
  lookup, insert, lookup-insert, length, nat_beq,
}
use edgelord.Domain.Id.{TokenId}
use edgelord.Domain.Book.{Book}

pub record BookCache (D : Type 0) : Type 0 where
  pub books : List (TokenId × Book D)
  pub has_sender : Bool
  pub sent : List TokenId

module _ {D : Type 0} where
  unfoldable pub new : BookCache D
  new = record { books = []; has_sender = false; sent = [] }

  unfoldable pub with_notifications : BookCache D
  with_notifications = record { books = []; has_sender = true; sent = [] }

  unfoldable pub update : Book D → BookCache D → BookCache D
  update b c = record c {
    books = insert b.token_id b c.books;
    sent = if c.has_sender then c.sent ++ (b.token_id ∷ []) else c.sent;
  }

  unfoldable pub get : TokenId → BookCache D → Option (Book D)
  get t c = lookup t c.books

  abbrev pub get_pair : TokenId → TokenId → BookCache D → Option (Book D) × Option (Book D)
  get_pair a b c = (get a c, get b c)

  abbrev pub get_many : List TokenId → BookCache D → List (Option (Book D))
  get_many ts c = map (λ t. get t c) ts

  abbrev pub len : BookCache D → ℕ
  len c = length c.books

  abbrev pub is_empty : BookCache D → Bool
  is_empty c = nat_beq (len c) 0

  -- A read after an update sees the new book for its token, and what was there for any other.
  pub get-update :
      (b : Book D) (c : BookCache D) (t : TokenId)
      → get t (update b c) ≡ (if b.token_id == t then some b else get t c)
  unfolding get update
  get-update b c t = lookup-insert b.token_id t b c.books
