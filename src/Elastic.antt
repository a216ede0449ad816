-- ===== src/Elastic.antt =====
-- relayer/storage/elasticsearch: events in an index of Elasticsearch.
pub mod Dsl
pub mod Client
pub mod Search
pub mod Write
pub mod Registry
pub mod Init
pub mod Meaning
pub mod Outcomes
pub mod Replacing
pub mod Recording
pub mod Answering
