-- ===== src/Http/Tests.antt =====
-- Requests at concrete inputs.
use flashsale_service.Postgres.Query.{find_sale}
use flashsale_service.Postgres.Store.{next_answer}
use flashsale_service.Service.Samples.{sample_world, sample_tables}
use flashsale_service.Errors.Chain.{root}
use flashsale_service.Http.SaleHandler.{
  sale_id_of, ShowsNothing, handle_get_sale, handle_get_sale_items, sale_reply,
  handle_get_sale_items-ShowsNothing, handle_get_sale_lem,
}
use flashsale_service.Http.ErrorMapper.{
  VisitsAll, map_domain_error, mapping_of_root, map_domain_error_lem,
}
use flashsale_service.Prelude.{◌≡◌, refl, List, ℕ, inl, String, arith, ◌∷◌, [], inr, eq_iff}
use flashsale_service.Http.Routes.{
  get, get_sale, not_found, handle_sale_routes, handle_sale_routes_mounted,
}
use flashsale_service.Errors.{
  sale_not_found, sale_not_active, sale_out_of_stock, sale_limit_exceeded, no_items_to_purchase,
  item_not_found, item_already_sold, item_not_in_sale, all_items_sold, checkout_not_found,
  checkout_expired, item_already_in_checkout, user_already_checked_out_item, user_limit_exceeded,
  checkout_already_processed, transaction_failed, DomainError, wrapped, domain,
}

abbrev in_order : List DomainError
in_order =
    sale_not_found ∷ sale_not_active ∷ sale_out_of_stock ∷ sale_limit_exceeded
    ∷ no_items_to_purchase ∷ item_not_found ∷ item_already_sold ∷ item_not_in_sale ∷ all_items_sold
    ∷ checkout_not_found ∷ checkout_expired ∷ item_already_in_checkout
    ∷ user_already_checked_out_item ∷ user_limit_exceeded ∷ checkout_already_processed
    ∷ transaction_failed ∷ []

in_order-VisitsAll : VisitsAll in_order
in_order-VisitsAll sale_not_found = inl refl
in_order-VisitsAll sale_not_active = inr (inl refl)
in_order-VisitsAll sale_out_of_stock = inr (inr (inl refl))
in_order-VisitsAll sale_limit_exceeded = inr (inr (inr (inl refl)))
in_order-VisitsAll no_items_to_purchase = inr (inr (inr (inr (inl refl))))
in_order-VisitsAll item_not_found = inr (inr (inr (inr (inr (inl refl)))))
in_order-VisitsAll item_already_sold = inr (inr (inr (inr (inr (inr (inl refl))))))
in_order-VisitsAll item_not_in_sale = inr (inr (inr (inr (inr (inr (inr (inl refl)))))))
in_order-VisitsAll all_items_sold = inr (inr (inr (inr (inr (inr (inr (inr (inl refl))))))))
in_order-VisitsAll checkout_not_found =
    inr (inr (inr (inr (inr (inr (inr (inr (inr (inl refl)))))))))
in_order-VisitsAll checkout_expired =
    inr (inr (inr (inr (inr (inr (inr (inr (inr (inr (inl refl))))))))))
in_order-VisitsAll item_already_in_checkout =
    inr (inr (inr (inr (inr (inr (inr (inr (inr (inr (inr (inl refl)))))))))))
in_order-VisitsAll user_already_checked_out_item =
    inr (inr (inr (inr (inr (inr (inr (inr (inr (inr (inr (inr (inl refl))))))))))))
in_order-VisitsAll user_limit_exceeded =
    inr (inr (inr (inr (inr (inr (inr (inr (inr (inr (inr (inr (inr (inl refl)))))))))))))
in_order-VisitsAll checkout_already_processed =
    inr (inr (inr (inr (inr (inr (inr (inr (inr (inr (inr (inr (inr (inr (inl refl))))))))))))))
in_order-VisitsAll transaction_failed =
    inr
      (inr (inr (inr (inr (inr (inr (inr (inr (inr (inr (inr (inr (inr (inr (inl refl)))))))))))))))

map_domain_error_lem_example :
    map_domain_error in_order (wrapped "failed to commit" (domain sale_not_found))
    ≡ mapping_of_root (root (wrapped "failed to commit" (domain sale_not_found)))
map_domain_error_lem_example =
    map_domain_error_lem in_order (wrapped "failed to commit" (domain sale_not_found))
      in_order-VisitsAll

abbrev as_text : ℕ → String
as_text n = "2026"

handle_get_sale_lem_example :
    (handle_get_sale in_order as_text 5 5 ("S-1" ∷ []) sample_world.store).0
    ≡ sale_reply in_order as_text 5
        (next_answer sample_world.store)
        (find_sale (sale_id_of ("S-1" ∷ [])) sample_tables.sales)
unfolding sale_id_of
handle_get_sale_lem_example =
    handle_get_sale_lem in_order as_text 5 ("S-1" ∷ []) sample_world.store in_order-VisitsAll refl

handle_get_sale_items-ShowsNothing_example :
    ShowsNothing in_order as_text
      (handle_get_sale_items in_order as_text ("S-1" ∷ "items" ∷ []) sample_world.store).0
handle_get_sale_items-ShowsNothing_example =
    handle_get_sale_items-ShowsNothing in_order as_text ("S-1" ∷ "items" ∷ []) sample_world.store

handle_sale_routes_mounted_example :
    (handle_sale_routes get ("" ∷ "sales" ∷ "S-1" ∷ []) ≡ not_found)
    × (handle_sale_routes get ("" ∷ "api" ∷ "v1" ∷ "sales" ∷ "S-1" ∷ []) ≡ get_sale)
handle_sale_routes_mounted_example =
    handle_sale_routes_mounted get "S-1" ("S-1" ∷ []) (ground (arith, eq_iff "S-1" ""))
