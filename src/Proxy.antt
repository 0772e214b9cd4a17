-- ===== src/Proxy.antt =====
-- internal/proxy: what is done with the bytes of a response while they pass to the client.
pub mod JsonValidator
pub mod TokenUsage
pub mod EventLines
pub mod InspectorState
pub mod KeySearch
pub mod UsageInspector
