-- ===== src/Market.antt =====
-- Ads and prices: the parts of api/services/aggregator.py that the other components use.
pub mod Ad
pub mod TextLib
pub mod Query
pub mod Sample
pub mod Params
pub mod Regions
pub mod Filters
pub mod Insights
pub mod Score
pub mod Margins
pub mod Duplicates
pub mod Deals
pub mod Sorting
pub mod Prices
mod Tests
