-- ===== src/Telegram/Catalogue.antt =====
-- The commands of the bot about the catalogue: three for admins, and the list with its buttons.
use streaming_bot.Prelude.{
  Text, text, text_eq, List, [], ◌∷◌, ◌++◌, map, Option, none, some, true, if◌then◌else◌,
}
use streaming_bot.Prelude.Int.{ℤ, pos, ltb_ℤ}
use streaming_bot.Prelude.Decimal.{decimal_ℤ}
use streaming_bot.Exec.{Result, ok, err, ignore, attempt, ◌>>=◌}
use streaming_bot.World.{Io, text_message, send}
use streaming_bot.Domain.Content.{Content}
use streaming_bot.Storage.Contents
use streaming_bot.Platform.Atoi.{atoi}
use streaming_bot.Platform.Strings.{trim_space, join, split_first}
use streaming_bot.Telegram.Api.{Bot, reply}

-- `splitTitleDesc`
unfoldable pub split_title_desc : Text → Text × Text
split_title_desc raw =
    let (title, rest) = split_first b'|' raw in
    (trim_space title, elim rest [ none ↦ [] | some desc ↦ trim_space desc ])

-- `strconv.Atoi`, and `err != nil || price <= 0`
abbrev positive_only : Option ℤ → Option ℤ
positive_only none = none
positive_only (some n) = if ltb_ℤ (pos 0) n then some n else none

abbrev pub read_price : Text → Option ℤ
read_price s = positive_only (atoi s)

-- What is said after a write.
abbrev pub report : ℤ → Text → Text → Result (Unit {0}) → Io Unit
report chat done failed (ok _) = reply chat done
report chat done failed (err _) = reply chat failed

-- `b.upsertContent`: the repository of the program supports the writes.
unfoldable pub upsert_content : ℤ → Content → Text → Text → Io Unit
upsert_content chat c done failed =
    attempt (Contents.upsert c) >>= λ res. report chat done failed res

-- Title and description are what follows the price.
abbrev pub new_content : Text → Text → ℤ → Text × Text → Content
new_content id video price (title, desc) = record {
  id = id;
  external_ref = video;
  title = if text_eq title [] then id else title;
  description = desc;
  price_stars = price;
  active = true;
}

unfoldable pub create_priced : ℤ → Text → Text → Option ℤ → Text → Io Unit
create_priced chat id video none meta = reply chat (text "price must be positive integer")
create_priced chat id video (some price) meta =
    upsert_content chat (new_content id video price (split_title_desc meta))
      (text "content created") (text "create content failed")

-- Less than four fields are too few.
unfoldable pub create_fields : ℤ → List Text → Io Unit
create_fields chat (id ∷ video ∷ price ∷ word ∷ words) =
    create_priced chat id video (read_price price) (join (text " ") (word ∷ words))
create_fields chat _ =
    reply chat (text "Usage: /createcontent <id> <bunny_video_id> <price> <title>|<description>")

-- Title and description change where the new ones are not empty.
abbrev pub changed_content : ℤ → Text × Text → Content → Content
changed_content price (title, desc) c = record c {
  title = if text_eq title [] then c.title else title;
  description = if text_eq desc [] then c.description else desc;
  price_stars = price;
}

unfoldable pub set_found : ℤ → ℤ → Text → Result (Option Content) → Io Unit
set_found chat price meta (ok (some existing)) =
    upsert_content chat (changed_content price (split_title_desc meta) existing)
      (text "content updated") (text "update content failed")
set_found chat price meta (ok none) = reply chat (text "content not found")
set_found chat price meta (err _) = reply chat (text "content not found")

unfoldable pub set_priced : ℤ → Text → Option ℤ → Text → Io Unit
set_priced chat id none meta = reply chat (text "price must be positive integer")
set_priced chat id (some price) meta =
    attempt (Contents.get_by_id id) >>= λ found. set_found chat price meta found

-- Less than three fields are too few.
unfoldable pub set_fields : ℤ → List Text → Io Unit
set_fields chat (id ∷ price ∷ word ∷ words) =
    set_priced chat id (read_price price) (join (text " ") (word ∷ words))
set_fields chat _ = reply chat (text "Usage: /setcontent <id> <price> <title>|<description>")

unfoldable pub delete_content : ℤ → Text → Io Unit
delete_content chat id =
    if text_eq id []
    then reply chat (text "Usage: /deletecontent <id>")
    else attempt (Contents.delete_by_id id) >>= λ res.
        report chat (text "content deleted") (text "delete content failed") res

-- `buy:<id>`
abbrev pub buy_button : Content → Text × Text
buy_button c = (
  text "Buy " ++ (c.title ++ (text " (" ++ (decimal_ℤ c.price_stars ++ text "⭐)"))),
  text "buy:" ++ c.id,
)

abbrev catalog_line : Content → Text
catalog_line c =
    text "- "
    ++ (c.title
        ++ (text " ("
            ++ (c.id
                ++ (text "): "
                    ++ (decimal_ℤ c.price_stars
                        ++ (text "⭐"
                            ++ (if text_eq c.description []
                                then []
                                else text "\n  " ++ c.description)))))))

unfoldable pub show_catalog : ℤ → Result (List Content) → Io Unit
show_catalog chat (err _) = reply chat (text "Failed to load catalog")
show_catalog chat (ok []) = reply chat (text "Catalog is empty")
show_catalog chat (ok (c ∷ cs)) = ignore (
    send (
      text_message (record {
        chat_id = chat;
        body = join (text "\n") (text "Catalog:" ∷ map catalog_line (c ∷ cs));
        buttons = map buy_button (c ∷ cs);
      })))

-- `case "catalog"`
unfoldable pub catalog : Bot → ℤ → Io Unit
catalog b chat = attempt (Contents.list_active b.collate) >>= λ items. show_catalog chat items
