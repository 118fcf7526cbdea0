-- ===== src/Dynamo.antt =====
-- src/anchor/store/dynamo.py: the store on DynamoDB and SQS. The two services are a parameter
-- (`Service`), with what the store relies on as their laws.
pub mod Attr
pub mod Service
pub mod Keys
pub mod Events
pub mod Effects
pub mod RunItems
pub mod Runs
pub mod Queue
pub mod Listing
