-- ===== src/Streaming/Sync/Terms.antt =====
-- The synchronisation keeps the price of an item and whether it is on sale.
use mathlib.Core.Path.{subst}
use streaming_bot.Prelude.{
  ℕ, Text, text_eq, Text-discrete, List, [], ◌∷◌, Option, none, some, Bool, true, ◌≢◌, find,
  update_where, ◌≡◌, refl, sym, ap, ◌∙◌, arith, if◌then◌else◌,
}
use streaming_bot.Prelude.Int.{ℤ}
use streaming_bot.Prelude.Tables.{find-append}
use streaming_bot.Exec.{gets}
use streaming_bot.Exec.Triple.{Triple-bind, Triple_of_state, Keeps, state_of_Keeps}
use streaming_bot.World.{World, Db}
use streaming_bot.World.Calls.{Triple-sql}
use streaming_bot.Domain.Content.{Content}
use streaming_bot.Storage.Contents
use streaming_bot.Streaming.Client.{Client, Video, BunnyApi}
use streaming_bot.Streaming.Sync.{fresh_item, merged, store_video, sync_library_content}
use streaming_bot.Streaming.Sync.Kept.{Kept, sync-Keeps_of_stores}

eq_of_text_eq : (a b : Text) → text_eq a b ≡ true → a ≡ b
eq_of_text_eq a b h = elim (Text-discrete a b) [ yes e ↦ e | no e ↦ ground arith ]

abbrev pub item_of : Text → List Content → Option Content
item_of k l = find (λ c. text_eq c.id k) l

-- An item written over the rows of its id.
item_of-update_where :
    (k : Text) (z : Content) (l : List Content)
    → item_of k (update_where (λ q. text_eq q.id z.id) (λ _. z) l) ≡ (
        if text_eq z.id k
        then elim (item_of k l) [ none ↦ none | some _ ↦ some z ]
        else item_of k l)
unfolding find update_where
item_of-update_where k z [] = ground arith
item_of-update_where k z (x ∷ l) = ground (arith, item_of-update_where k z l)

module _ (k : Text) (price : ℤ) (active : Bool) where
  abbrev Terms : Option Content → Type 0
  Terms none = ⊥
  Terms (some c) = (c.price_stars ≡ price) × (c.active ≡ active)

  abbrev HasTerms : Db → Type 0
  HasTerms d = Terms (item_of k d.content)

  upsert-HasTerms :
      (z : Content) (d : Db)
      → HasTerms d
      → (text_eq z.id k ≡ true → Terms (some z))
      → HasTerms (Contents.upsert_row z d).1
  unfolding Contents.upsert_row
  upsert-HasTerms z d h same = ground (
    arith,
    item_of-update_where k z d.content,
    find-append (λ c. text_eq c.id k) d.content z,
    Terms-ne-none (item_of k d.content),
  )
    where
      Terms-ne-none : (o : Option Content) → Terms o → o ≢ none
      Terms-ne-none none h e = h
      Terms-ne-none (some c) h e = cc

  merged-Terms :
      (existing : Option Content) (dflt : ℤ) (id : Text) (v : Video) (l : List Content)
      → Terms (item_of k l)
      → existing ≡ item_of id l
      → text_eq (merged existing (fresh_item dflt id v)).id k ≡ true
      → Terms (some (merged existing (fresh_item dflt id v)))
  merged-Terms none dflt id v l h e same =
      absurd (subst Terms (sym (e ∙ ap (λ j. item_of j l) (eq_of_text_eq id k same))) h)
  merged-Terms (some c) dflt id v l h e same =
      subst Terms (sym (e ∙ ap (λ j. item_of j l) (eq_of_text_eq id k same))) h

  -- Before the write, the item that was read is the one that the table has.
  store_video-HasTerms :
      (dflt : ℤ) (id : Text) (v : Video) → Keeps (Kept HasTerms) (store_video dflt id v)
  unfolding store_video Contents.get_by_id Contents.upsert gets
  store_video-HasTerms dflt id v =
      Triple-bind
        (Triple-sql HasTerms (λ existing d. HasTerms d × (existing ≡ item_of id d.content)) HasTerms
          (λ a d h. h.0) (λ d h. h) (record { at = λ d h. (h, refl) }))
        λ existing.
          Triple-sql (λ d. HasTerms d × (existing ≡ item_of id d.content)) (λ _. HasTerms) HasTerms
            (λ a d h. h) (λ d h. h.0)
            (Triple_of_state (λ d h.
              upsert-HasTerms (merged existing (fresh_item dflt id v)) d h.0
                (merged-Terms existing dflt id v d.content h.0 h.1)))

-- Whatever the service lists and however the calls end, an item of the catalogue is still there
-- after a synchronisation, with the price that it had, and on sale exactly if it was.
pub sync_keeps_terms :
    (api : BunnyApi) (c : Client) (fuel : ℕ) (dflt : ℤ) (k : Text) (item : Content) (w : World)
    → item_of k w.db.content ≡ some item
    → (item' : Content) × (item_of k (sync_library_content api c fuel dflt w).1.db.content
        ≡ some item')
      × (item'.price_stars ≡ item.price_stars)
      × (item'.active ≡ item.active)
sync_keeps_terms api c fuel dflt k item w h =
    read (item_of k (sync_library_content api c fuel dflt w).1.db.content) refl (
      state_of_Keeps
        (sync-Keeps_of_stores (HasTerms k item.price_stars item.active)
          (store_video-HasTerms k item.price_stars item.active) api c fuel dflt)
        w (subst (Terms k item.price_stars item.active) (sym h) (refl, refl)))
  where
    read :
        (o : Option Content)
        → item_of k (sync_library_content api c fuel dflt w).1.db.content ≡ o
        → Terms k item.price_stars item.active o
        → (item' : Content) × (item_of k (sync_library_content api c fuel dflt w).1.db.content
            ≡ some item')
          × (item'.price_stars ≡ item.price_stars)
          × (item'.active ≡ item.active)
    read none e t = absurd t
    read (some x) e t = (x, e, t.0, t.1)
