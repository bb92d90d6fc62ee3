-- ===== src/Http/AdminHandler/Tests.antt =====
-- The admin handler on the tables of a sale that has ended. The end that is asked for has an offset,
-- and what the clock reads then is kept.
use flashsale_service.Prelude.{ℕ, String, pos, refl, if◌then◌else◌, Option, ◌=ℕ=◌, ◌==◌, some, none}
use flashsale_service.Effect.{ok}
use flashsale_service.Http.AdminHandler.{
  handle_create_sale, CreateSaleRequest, CreateSaleResponse, Time,
}
use flashsale_service.Http.AdminHandler.Books.{handle_create_sale-Valid}
use flashsale_service.Http.AdminHandler.Created.{handle_create_sale-TellsTruth, TellsTruth}
use flashsale_service.Http.Response.{Reply}
use flashsale_service.Scheduler.{Drawn}
use flashsale_service.Postgres.Query.{has_sale}
use flashsale_service.Postgres.Stock.Create.{Valid}
use flashsale_service.Postgres.Store.{Store, answered}
use flashsale_service.Service.Samples.{sample_world, sample-IsConsistent}

abbrev text_of : Time → String
text_of t = if t.instant =ℕ= 40 then "later" else "soon"

abbrev instant : String → Option Time
instant text = if text == "later" then some (record { instant = 40; reading = 10 }) else none

abbrev drawn : ℕ → Drawn
drawn n = record { item_id = if n =ℕ= 0 then "x" else "y"; name = "Lamp"; image_url = ""; at = 20 }

abbrev asked : CreateSaleRequest
asked = record { started_at = ""; ended_at = "later"; total_items = pos 2 }

abbrev ended : Store
ended = record sample_world.store { clock = 20; answers = λ _. answered }

ended-Valid : Valid ended.tables
unfolding has_sale
ended-Valid = record { books = sample-IsConsistent; refers = (refl, (refl, tt)) }

abbrev created : Reply CreateSaleResponse × Store
created = handle_create_sale text_of instant "S-2" 18 20 drawn (ok asked) ended

handle_create_sale-Valid_example : Valid created.1.tables
handle_create_sale-Valid_example =
    handle_create_sale-Valid text_of instant "S-2" 18 20 drawn (ok asked) ended ended-Valid

handle_create_sale-TellsTruth_example : TellsTruth text_of created.0 created.1
handle_create_sale-TellsTruth_example =
    handle_create_sale-TellsTruth text_of instant "S-2" 18 20 drawn (ok asked) ended ended-Valid
