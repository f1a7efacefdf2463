-- ===== src/Lib.antt =====
-- The back end of a tailoring shop: orders, payments and accounts.
--
-- Customers order garments that are priced from a catalog (MongoDB), pay by Paystack, and are told
-- when the payment is confirmed; admins and tailors move the orders on. packages/api holds the order
-- service and the account service, packages/db the Postgres schema, packages/catalog-db the models of
-- the catalog, packages/catalog-service its administration, and packages/gateway the proxy in front.
-- The library models packages/api/src: its services, the worker that follows the catalog's events,
-- and the guards of the routes; and packages/catalog-service/src and packages/catalog-db/src: the
-- documents, the services and handlers that change and list them, and the events that they send to
-- the worker. A confirmation of a payment may come from the webhook, from the
-- customer's browser, from a cancellation and from a request for a new payment link, and viewing a
-- pending order reprices it together with its payment.
--
-- Files, and what they model:
--   Common            lists of rows with Prisma's queries (Common/Rows), calls that return or throw
--                     (Common/Calls; errors/AppError.ts), streams of a bounded length (Common/Streams), JavaScript's text functions (Common/Text)
--   Numbers           JavaScript's numbers, as a parameter `Arith F`
--   Schema, Store     packages/db/prisma/schema.prisma and the reads and writes by key
--   Catalog           packages/catalog-db/src/models, as far as orders read them
--   Models            packages/catalog-db/src/models, as the catalog service writes them: setters,
--                     defaults, rules and hooks; Slug is the slugs, Fabric and Product the models
--   Connection        packages/catalog-db/src/connection.ts; Retries is the end of the attempts
--   Pricing           pricingEngine.ts, and calculateFabricYards of orderService.ts
--   Paystack          paystackService.ts: initializePayment, verifyPayment, verifyWebhookSignature
--   Orders            orderService.ts:
--     Notes             parseNotesMetadata
--     Item, Create      createOrder: check_items and price_items are its steps 1 and 3, place the rest
--     Confirm           confirmPayment: precheck up to Paystack's answer, settle from there on; Balance and Race
--                       are any number of overlapping calls, whose transactions run one at a time and
--                       queue their jobs later, Stale two transactions that overlap
--     Status            updateOrderStatus; Transitions is what it accepts, Writes what it stores, Series
--                       many requests
--     Cancel            deletePendingOrder
--     Reprice           revalidateOrderPricing and getOrderById
--     Measurements      getUserMeasurements, createMeasurement, updateMeasurement
--     Pay               initializeOrderPayment
--     Webhook           paystackWebhookHandler of handlers/orders.ts
--   Auth              authService.ts and utils/hibp.ts:
--     Env               the environment, hashes, tokens, the breach list and the email providers
--     Sessions          register, refresh, logout, updateProfile
--     Login             login, verifyAdminOtp, generateDeviceToken
--     Reset             requestPasswordReset, resetPassword
--   Events            queues/catalogEventWorker.ts: the cache of products, batch by batch; Latest is
--                     the cache, Letters the acknowledgements and the dead letters
--   CatalogService    packages/catalog-service/src, and MongoDB's collections as the record Mongo:
--     Categories        categoryService.ts; Undone is an addition that is taken back
--     FabricCategories  fabricCategoryService.ts
--     Fabrics           fabricService.ts; Listed is which fabrics customers are shown
--     AdminFabrics      adminFabricService.ts; Filed says that the categories' lists and the fabrics
--                       agree, Keeps and Removals that each request keeps it, Series is many requests
--     Products          productService.ts; Search is escapeRegExp
--     AdminProducts     adminProductService.ts; Dressed says that a product has styles to show
--     Handlers          handlers/*.ts and redis.ts; Visible is about drafts, Sync joins the handlers'
--                       events to the worker of Events, and Told is what the events say of each product
--   Csrf              utils/csrfToken.ts and middleware/verifyCsrf.ts; Window is how long a token serves
--   Notifications     queues/notificationWorker.ts: the emails of each job; Sent is which are handed on
--   Guards            middleware/authenticate.ts and authorize.ts
--   Tests             below Orders, Auth, Events, Guards, Models, Connection, Csrf, Notifications and
--                     CatalogService: the
--                     theorems at concrete data
--
-- How the code is rendered. A service function is a function from its arguments and the state (the
-- tables, and the queue of notifications) to a result and a state; an error is a value, and what was
-- written before a throw stays, except in `transaction`, which stands for prisma.$transaction and
-- undoes it. Tables are lists of rows: findFirst and findUnique are find_first, update by a unique key
-- is update_first, updateMany is update_many, and a delete of an order takes its payment and history
-- with it, as the schema says; the foreign key of an order's tailor is checked as well. What comes from
-- outside is an argument: the answers of Paystack, the documents of the catalog, ids that the database gives, random codes and tokens, the time (one call
-- reads the clock once), the hashes, and jsonwebtoken. A theorem that needs a fact about one of these
-- names it as a hypothesis.
--
-- Numbers are any type with the operations of `Arith`; times and counters are natural numbers, times
-- in milliseconds. Notes are the data that the code's JSON text holds. The comparison of text without
-- case folds ASCII letters only. In the catalog service an id is a text that mongoose casts, a document
-- is checked against its schema's rules before the unique indexes, and an update that a schema's rules
-- refuse is refused by the rules of the fields that it sets. Only the attempts to connect have fuel, six
-- for the six attempts; every other loop of the code runs over a list, and the decimal digits of a
-- number are computed with the number itself as the bound of their count.
--
-- Not modelled: the images that are filled in for display with an order, the paged lists of orders, log
-- lines, waiting times that only hide differences, the HTTP handlers of packages/api other than the
-- webhook's, the routes, uploads, the texts of emails, the retries of the queue of notifications, and
-- the gateway; MongoDB always answers. A confirmation that a cancellation starts in the
-- background runs at once.
pub mod Common
pub mod Connection
pub mod Csrf
pub mod Notifications
pub mod Models
pub mod CatalogService
pub mod Numbers
pub mod Schema
pub mod Catalog
pub mod Pricing
pub mod Paystack
pub mod Store
pub mod Orders
pub mod Auth
pub mod Events
pub mod Guards
