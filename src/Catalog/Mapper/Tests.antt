-- ===== src/Catalog/Mapper/Tests.antt =====
-- Rows of a small catalog on the wire, and the theorems about the mapper there.
use real_estate_webapp.Prelude.{
  ◌≤◌, ◌≡◌, refl, Bool, true, false, none, some, List, codes, length, is_space, trim_start, trim,
  Text, keep_some,
}
use real_estate_webapp.Catalog.{PropertyRow, carpet_basis, marla}
use real_estate_webapp.Catalog.Tests.{sector_70, kothi_12, rival, catalog}
use real_estate_webapp.Catalog.Vocabulary.{
  PropertyTypeDto, ListingStatusDto, db_to_property_type, db_to_status,
}
use real_estate_webapp.Catalog.Offers.{Joined}
use real_estate_webapp.Catalog.Filters.{Point, BoundsDto}
use real_estate_webapp.Catalog.Search.{search}
use real_estate_webapp.Catalog.Search.Tests.{market, cheapest}
use real_estate_webapp.Catalog.Mapper.{
  Names, ListingDto, dto_of, to_listing_dto, to_dtos, area, comma_join, unparsed_address,
}
use real_estate_webapp.Catalog.Mapper.Shown.{search-to_dtos, entered_areas, to_listing_dto_entered}

service : Unit {0}
unfolding db_to_property_type db_to_status to_listing_dto to_dtos dto_of area keep_some is_space
    trim_start trim comma_join unparsed_address
service = tt

abbrev pub names : Joined → Names
names j = record {
  reference_code = codes "TE-1";
  project_name = none;
  locality_name = codes "Sector 70";
  city_name = codes "Mohali";
  org_name = codes "Firm";
  agent_name = none;
  project_rera_no = none;
}

-- Ten marla of land, entered as such, and a carpet area beside it.
abbrev pub measured : Joined
measured = record {
  listing = rival;
  property = record {
    id = 4;
    columns = record kothi_12 {
      carpet_area_sqft = some 150000;
      area_input_value = some 1500;
      area_input_unit = some marla;
      area_input_basis = some carpet_basis;
    };
  };
  locality = sector_70;
}

abbrev pub shown : ListingDto
shown = dto_of 100 (names measured) catalog measured ListingStatusDto.active PropertyTypeDto.kothi

to_listing_dto_entered_example : entered_areas shown ≤ 1
unfolding service
to_listing_dto_entered_example = to_listing_dto_entered 100 names catalog measured shown refl

address :
    (dto_of 100
      (names measured)
      catalog
      measured
      ListingStatusDto.active
      PropertyTypeDto.kothi).address.unparsed
    ≡ codes "12, Sector 70, Mohali"
unfolding service
address = refl

abbrev no_text : Text → Joined → Bool
no_text text j = false

abbrev everywhere : BoundsDto → PropertyRow → Bool
everywhere b p = true

abbrev nowhere : List Point → PropertyRow → Bool
nowhere points p = false

search-to_dtos_example :
    length (to_dtos 100 names market (search no_text everywhere nowhere cheapest market).rows)
    ≡ length (search no_text everywhere nowhere cheapest market).rows
search-to_dtos_example = search-to_dtos no_text everywhere nowhere 100 names cheapest market
