-- ===== src/Lib.antt =====
-- Rafuk watches the classified ads of Kufar. A Mini App and a Telegram bot let users search,
-- create trackers and keep leads and watched lots; a scheduler fetches the recent listings of
-- every tracked query, compares them with the listings that are remembered, and sends alerts. This
-- library models the core of the Python code: functions over explicit states for the services, and
-- sequences of events where coroutines of one event loop interleave.
--
-- The parts, their files, and the code that they model:
--
--   Base        shared helpers: tests on numbers and texts, lists, Python's ordered
--               dictionaries, times, signed numbers
--   Json        JSON values as Python decodes them
--   Market      ads, queries and prices: Market/Query is normalize_search_text,
--               build_query_key, is_strict_match and apply_search_mode of
--               api/services/aggregator.py, Market/Prices its price statistics,
--               Market/Deals filter_deal_ads and sort_listings,
--               Market/Params the readings of ad parameters; Market/Regions and
--               Market/Duplicates are api/services/market_signals.py,
--               Market/Filters is matches_tracker_filters, Market/Insights
--               analyze_query_text and Market/Score compute_deal_score of
--               api/services/reseller_tools.py, Market/Margins is
--               api/services/deal_workflow.py
--   Auth        api/middleware/telegram_auth.py: the check of init data; Auth/Limits is
--               api/rate_limit.py
--   Currency    api/services/currency_service.py
--   Kufar       api/services/kufar_client.py: Kufar/Payload reads answers,
--               Kufar/Retry is search, Kufar/Pages is search_all_ads, Kufar/Pacer
--               is _RequestPacer
--   Cache       api/services/cache.py: Cache/Memory is MemoryCache, Cache/Redis is
--               RedisCache with its fallback
--   Pipeline    api/services/query_pipeline.py: Pipeline/DatasetCache is DatasetCache,
--               Pipeline/SingleFlight is get_or_load with the loads that callers share
--   History     api/services/history_service.py: History/Table is the table
--               query_listing_states, History/Lookup and History/Known the chunked
--               queries and the baseline marker, History/Sync is
--               sync_query_listing_states, History/Snapshots the hourly snapshots
--   Tracker     api/services/tracker_service.py: Tracker/Interval the cadence,
--               Tracker/Service is create_tracker, Tracker/Activation is
--               deactivate_tracker and resume_paused_trackers; the other files prove
--               what sequences of these operations keep
--   User        api/services/users.py: ensure_user (init_data_username is in Auth)
--   Workflow    api/services/workflow_store.py: Workflow/Lead is upsert_lead,
--               Workflow/Watchlist is upsert_watchlist, Workflow/Budget is
--               gather_within_budget, and Workflow/Budget/Boards its use in
--               _load_boards_isolated of api/routers/saved_searches.py
--   SavedSearch api/routers/saved_searches.py: creating, listing and deleting;
--               SavedSearch/Spec is what a client sees of it, and SavedSearch/Board the
--               opportunity board
--   Bot         bot/middlewares.py: Bot/Throttling is ThrottlingMiddleware
--   Scheduler   scheduler/collector.py: Scheduler/Due is tracker_is_due and
--               deep_scan_is_due, Scheduler/Groups is TrackerGroup and
--               _load_tracker_groups, Scheduler/Fetch is _fetch_group_sample,
--               Scheduler/Process is _process_group, Scheduler/Run is check_trackers,
--               Scheduler/Alerts is AlertSender,
--               Scheduler/Cleanup is cleanup_stale_listing_states
--
-- How they interact: the scheduler groups the active trackers by their query key (Market/Query,
-- Scheduler/Groups), decides which groups are due with the same rounded interval that the Mini App
-- shows (Tracker/Interval, Scheduler/Due), follows Kufar's pages as far as a group needs
-- (Scheduler/Fetch, Kufar/Payload), hands the sample to the sync (History/Sync), filters its
-- report for every tracker (Market/Filters), writes events and drafts alerts (Scheduler/Process),
-- and sends them (Scheduler/Alerts), group after group (Scheduler/Run); a user who blocked the bot
-- has all trackers paused, and resuming them (Tracker/Activation) respects the quota and skips
-- what the user deleted. The price history and the responses go through the caches (Pipeline,
-- Cache). A request of the Mini App shows its user by signed init data (Auth), which also choose
-- whose budget it is charged to; saved searches and trackers are counted against quotas of that
-- user (User, SavedSearch, Tracker), and every request to Kufar passes one pacer (Kufar/Pacer).
--
-- Units and conventions: moments and clock readings are whole microseconds; prices are whole
-- kopecks, to which the source rounds them; price statistics are exact, so a median is stored
-- twice, quartiles four times and a cutoff, a quarter of a median, eight times; a discount is
-- rounded to hundredths of a percent, where a tie goes up; the numbers of tracker filters are
-- whole ten-thousandths, to which the source rounds them for comparison; a deal score is in
-- thousandths of a point until it is rounded to tenths, where a tie goes up. A table is a list of
-- rows in the order of their creation, and a transaction is one function of the table: the source
-- locks the user's row, or relies on a unique index, where two of them could interleave. An
-- exception is a value of the result. A set is a list that is only asked for membership.
--
-- What is not under version control here is an argument: the text operations of Python's str, re
-- and hashlib (Market/TextLib), the hash of zlib, HMAC and the parser of query strings (WebLib of
-- Auth), the floats of the currency service (FloatLib of Currency), the regular expressions for
-- memory sizes (PatternLib of Market/Insights), the decimal text of a number, the storage of the
-- rate limiter, the answers of the Redis client, of Telegram, of the bank and of Kufar, and the
-- readings of the clock. Where a theorem needs a law of one of them, the law is a named
-- hypothesis, and Market/Sample has a concrete text library for the examples.
--
-- Loops over a list are recursion on the list. The loop of search_all_ads has fuel, of which the
-- page limit that every caller passes is enough, because each round fetches a page or ends; that
-- of split_low_outliers has one round more than there are prices, because each round but the last
-- drops one; and a scan counts its pages down from their maximum. The chunked lookup has as much
-- fuel as it has keys, which is enough because a chunk takes at least one of them. The attempts to
-- send an alert are counted down from their maximum.
--
-- Not modelled: the normalization of raw ads, so that the listings of a page are given as
-- normalized, and an answer of the scheduler's client is given with them; that every setting has a
-- pacer of its own; and the texts of messages; also the other routers, schemas, handlers,
-- configuration, migrations and the frontend, which are glue, input validation by a framework, or
-- presentation.
pub mod Base
pub mod Json
pub mod Market
pub mod Kufar
pub mod Cache
pub mod Currency
pub mod Pipeline
pub mod History
pub mod Auth
pub mod Tracker
pub mod User
pub mod Workflow
pub mod SavedSearch
pub mod Scheduler
pub mod Bot
