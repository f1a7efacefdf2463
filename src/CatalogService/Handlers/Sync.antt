-- ===== src/CatalogService/Handlers/Sync.antt =====
-- The administration of products and the order service's cache of products, which follows the events.
use mathlib.Core.Option
use jhaz_imprints.Common.{Option}
