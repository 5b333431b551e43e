-- ===== src/Lib.antt =====
-- The real-estate web application: sign-in, sessions, enquiries and listings of its API (apps/api), the
-- searches of its public site (apps/web), and the gate of its staff application (apps/admin).
--
-- Prelude      shared names: native numbers with Boolean tests, lists as tables (find, any,
--              update_where), results of code that can throw, text as UTF-16 code units.
-- Http         the HTTP exceptions that services throw.
-- Identity     the tables behind sign-in, and the SQL functions of migration 0011.
-- Session      apps/api/src/identity/services/token.service.ts. `issue_refresh_token`,
--              `find_refresh_token`, `rotate`, `revoke_family` and `revoke_by_token` are the methods
--              of those names. `rotate_found` is `rotate` after the lookup, `rotate_tx` and
--              `rotate_locked` its transaction, `rotate_settled` what follows that: the revocation
--              of a family is a transaction of its own, and `others` is what other requests commit
--              before it. Interleaving has the steps of requests that run at the same time, with the
--              records they hold.
-- Auth         AccessTokenClaims and the interface `Jwt` of the signing library. Auth.Staff is
--              staff-auth.service.ts beside it: `login`, `refresh`, `logout`. Auth.Guard is
--              apps/api/src/identity/guards/jwt-auth.guard.ts. Auth.Contact is contact-auth.service.ts:
--              `verify_login_otp`, and in Password and Refresh the other methods.
-- Otp          otp.service.ts beside it: `request` and `verify` over the table otp_challenge.
-- Messaging    apps/api/src/messaging/services/outbound-message.service.ts: `send`.
-- Contacts     `findOrCreateContact` of apps/api/src/leads/repositories/lead.repository.ts.
-- Leads        packages/contracts/src/leads.ts and lead-scoring.service.ts. Leads.Intake is `create` of
--              lead.service.ts, Leads.Followup speed-to-lead.service.ts, Leads.Pipeline `updateStatus`
--              and in Queue `listForOrg`.
-- Catalog      the tables of the catalog and `can_view_listing` of migration 0017. In apps/api/src/catalog:
--              Catalog.Vocabulary is utils/enum-maps.ts, Catalog.Rera rera.repository.ts,
--              Catalog.Properties property.repository.ts, Catalog.Offers listing-write.repository.ts,
--              Catalog.Requests dto/write-listing.dto.ts, and Catalog.Admin listing-admin.service.ts,
--              whose `create` and `update` are cut where one transaction ends and the next begins.
--              Catalog.Filters and Catalog.Search are listing.repository.ts with sql-filters.ts: the
--              predicates of a search, and the reads of a visitor, whose `ORDER BY` is an insertion
--              sort. Catalog.Mapper is listing.mapper.ts with `toDtos` of catalog.service.ts.
-- Media        apps/api/src/media: the table of photos, the object storage and the keys of its objects.
--              Media.Service is media.service.ts over media.repository.ts: `upload`, `remove`, `reorder`,
--              and in Media.Reads `stream_variant`, `list_for_listing`, `list_for_admin`.
-- Web          apps/web/src/lib/listings: Web itself is types.ts, Web.Query is query-params.ts, and
--              Web.Provider is mock-provider.ts with api-provider.ts. Web.Wire is the query string between
--              the site and the API: `toSearchParams` of packages/contracts/src/catalog.ts and
--              apps/api/src/catalog/dto/search-listings.dto.ts.
-- Admin        apps/admin/src/proxy.ts: `arrive` is `proxy` until it waits, `exchange` the refresh that
--              requests share, and `settle` the end of one.
--
-- How the parts meet: a login ends in `issue_refresh_token`, a buyer's login starts with
-- `verify` of Otp, and a refresh is `rotate` and then the checks of the record that it gave. `create`
-- of Leads.Intake uses Contacts and `score`, and what it starts after the answer is Leads.Followup,
-- which sends through Messaging. A listing of Catalog decides who may change and who may see its
-- photos. A query of Web goes to Catalog through `to_contract_params`, `encode` and `validated`, and a
-- row of Catalog comes to Web through `to_listing_dto` and `to_listing`.
--
-- A uuid, a digest and a raw token are numbers, a time is a number of milliseconds. What a call draws
-- at random and what a clock shows are arguments of the call. A table is a list of rows; `none` from
-- an insert or an update is a constraint of the schema that the write violates, which aborts its
-- transaction. Row-level security is a test on the rows that a statement reaches.
--
-- Parameters, for code outside of the repository: the digest (no law is assumed of it), the signing
-- library `Jwt` with the laws that a signature is verified until it runs out and has no white space
-- at its ends, Argon2 as `Passwords` or as the test of a password, the equality of citext as
-- `same_email`, PostgreSQL's reading of a uuid as `parse_uuid`, its text search as `matches_text`,
-- PostGIS as `in_bounds` and `in_polygon`, the numbers of JavaScript as `Numbers`, `toLowerCase` as
-- `lower`, the image library as `process`, the success of writes to the object storage as `puts`, and
-- a messaging provider as its answers to successive calls. The times at which the database made the
-- rows of a queue are `created_at`.
--
-- Loops: the retry loop of `send` runs on the number of attempts that are left, which is the loop's own
-- bound. Everything else recurs on the rows of a table or the characters of a text.
--
-- Not modelled: the market statistics, the rest of the web application, the pages of the admin
-- application, log lines, and the wiring of the framework. Codes of Otp are requested and verified one
-- call at a time, and so are photos uploaded. Of a search, the areas drawn on the map and its box are
-- left out of the URLs and of the query strings.
pub mod Prelude
pub mod Http
pub mod Identity
pub mod Session
pub mod Auth
pub mod Otp
pub mod Messaging
pub mod Contacts
pub mod Leads
pub mod Catalog
pub mod Media
pub mod Web
pub mod Admin
