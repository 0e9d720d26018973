-- ===== src/App/IssueAccess/Granted.antt =====
-- The grant that a link gets: its token is made, the row is written and the token cached.
use streaming_bot.Prelude.{ℕ, ◌≤◌, Text, [], ◌∷◌, ◌++◌, false, any, take, length, ◌≡◌, refl, arith}
use streaming_bot.Exec.{ok, ◌>>=◌, pure, ignore}
use streaming_bot.World.{World, PurchaseRow, sql, redis, time_now, rand_read, drop_bytes}
use streaming_bot.Prelude.Int.{ℤ, sub_ℕ}
use streaming_bot.Domain.Access.{Grant}
use streaming_bot.Storage.Purchases.{of_row}
use streaming_bot.Storage.Grants
use streaming_bot.Storage.Tokens
use streaming_bot.Platform.Hex.{encode_to_string}
use streaming_bot.Platform.Crypto.{token_digest, generate}
use streaming_bot.App.IssueAccess.{Handler, new_grant, hash_or_digest, finish, grant_access}

-- The raw token that the next random bytes make.
abbrev pub raw_token : World → Text
raw_token w = encode_to_string (take 32 w.entropy)

-- The grant that the purchase gets.
abbrev pub grant_of : Handler → PurchaseRow → ℕ → World → Grant
grant_of h r until w = new_grant h (of_row r) (token_digest h.sum256 (raw_token w)) w.clock until

-- The world after the grant is written and its token is cached.
abbrev pub granted_world : Handler → PurchaseRow → ℕ → World → World
granted_world h r until w = record w {
  db = record w.db { access_grants = w.db.access_grants ++ grant_of h r until w ∷ [] };
  cache =
      (h.cache.set (Tokens.key (token_digest h.sum256 (raw_token w))) r.id (sub_ℕ until w.clock)
        w.cache).1;
  entropy = drop_bytes 32 w.entropy;
}

generate-calm :
    (h : Handler) (w : World)
    → 32 ≤ length w.entropy
    → generate h.sum256 w ≡ (
      ok (raw_token w, token_digest h.sum256 (raw_token w)),
      record w { entropy = drop_bytes 32 w.entropy },
    )
unfolding generate rand_read ◌>>=◌ pure
generate-calm h w random = ground arith

hash_or_digest-same :
    (h : Handler) (raw : Text)
    → hash_or_digest h raw (token_digest h.sum256 raw) ≡ token_digest h.sum256 raw
hash_or_digest-same h raw = ground arith

create_calm :
    (g : Grant) (w : World)
    → w.net ≡ []
    → any (Grants.clashes g) w.db.access_grants ≡ false
    → Grants.create g w
      ≡ (ok tt, record w { db = record w.db { access_grants = w.db.access_grants ++ g ∷ [] } })
unfolding Grants.create Grants.insert_row sql
create_calm g w calm fresh = ground arith

put_calm :
    (cache : Tokens.RedisClient) (hash id : Text) (ttl : ℤ) (w : World)
    → w.net ≡ []
    → ignore (Tokens.put cache hash id ttl) w
      ≡ (ok tt, record w { cache = (cache.set (Tokens.key hash) id ttl w.cache).1 })
unfolding Tokens.put redis ignore
put_calm cache hash id ttl w calm = ground arith

pub grant_access-finish :
    (h : Handler) (r : PurchaseRow) (link : Text) (until : ℕ) (w : World)
    → w.net ≡ []
    → 32 ≤ length w.entropy
    → any (Grants.clashes (grant_of h r until w)) w.db.access_grants ≡ false
    → grant_access h link until (of_row r) w
      ≡ finish h link (raw_token w) (of_row r) (granted_world h r until w)
unfolding grant_access ◌>>=◌ time_now of_row
grant_access-finish h r link until w calm random fresh =
    rw
      (
        generate-calm h w random,
        hash_or_digest-same h (raw_token w),
        create_calm (grant_of h r until w) (record w { entropy = drop_bytes 32 w.entropy }) calm
            fresh,
        put_calm h.cache (token_digest h.sum256 (raw_token w)) r.id (sub_ℕ until w.clock)
            (record w {
              entropy = drop_bytes 32 w.entropy;
              db = record w.db { access_grants = w.db.access_grants ++ grant_of h r until w ∷ [] };
            })
            calm,
      )
      refl
