-- ===== src/Realize/Resources.antt =====
-- pkg/realizer/realizer.go: the resources of a supply chain or of a delivery, as the realizer takes
-- them.
use cartographer.Prelude.{List, [], map, none}
use cartographer.Validation.SupplyChain.{SupplyChain, SupplyChainResource}
use cartographer.Validation.Delivery.{Delivery, DeliveryResource}
use cartographer.Realizer.{OwnerResource}
use cartographer.Realize.{or_empty}

supply_chain_resource : SupplyChainResource → OwnerResource
supply_chain_resource r = record {
  template_ref = record { kind = r.template_ref.kind; name = r.template_ref.name };
  template_options = r.template_ref.options;
  params = r.params;
  name = r.name;
  sources = r.sources;
  images = r.images;
  configs = r.configs;
  deployment = none;
}

unfoldable pub make_supplychain_owner_resources : SupplyChain → List OwnerResource
unfolding supply_chain_resource
make_supplychain_owner_resources chain = map supply_chain_resource chain.resources

delivery_resource : DeliveryResource → OwnerResource
delivery_resource r = record {
  template_ref = record { kind = r.template_ref.kind; name = r.template_ref.name };
  template_options = r.template_ref.options;
  params = r.params;
  name = r.name;
  sources = r.sources;
  images = [];
  configs = or_empty r.configs;
  deployment = r.deployment;
}

unfoldable pub make_delivery_owner_resources : Delivery → List OwnerResource
unfolding delivery_resource
make_delivery_owner_resources delivery = map delivery_resource delivery.resources
