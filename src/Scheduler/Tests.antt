-- ===== src/Scheduler/Tests.antt =====
-- The scheduler on concrete tables.
use flashsale_service.Scheduler.Books.{create_sale_if_needed-Valid}
use flashsale_service.Scheduler.{Drawn, create_sale_if_needed}
use flashsale_service.Effect.{Result}
use flashsale_service.Postgres.Stock.Create.{Valid}
use flashsale_service.Postgres.Query.{has_sale}
use flashsale_service.Postgres.Store.{Store}
use flashsale_service.Service.Samples.{sample_world, sample-IsConsistent}
use flashsale_service.Prelude.{refl, ℕ, if◌then◌else◌, pos, ◌=ℕ=◌}

abbrev drawn : ℕ → Drawn
drawn n = record { item_id = if n =ℕ= 0 then "x" else "y"; name = "Lamp"; image_url = ""; at = 20 }

-- The sale of the sample tables has ended.
abbrev later : Store
later = record sample_world.store { clock = 20 }

later-Valid : Valid later.tables
unfolding has_sale
later-Valid = record { books = sample-IsConsistent; refers = (refl, (refl, tt)) }

create_sale_if_needed-Valid_example :
    Valid (create_sale_if_needed "S-2" 18 20 (pos 2) drawn later).1.tables
create_sale_if_needed-Valid_example =
    create_sale_if_needed-Valid "S-2" 18 20 (pos 2) drawn later later-Valid

-- Sale S-2 is created with the items x and y.
created_run : Result (Unit {0}) × Store
created_run = create_sale_if_needed "S-2" 18 20 (pos 2) drawn later
